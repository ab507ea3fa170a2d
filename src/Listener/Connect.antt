-- ===== src/Listener/Connect.antt =====
-- stream/inner.rs and listener/inner.rs: a connection that is opened from here. What the socket
-- does, and the time that has passed at each look, are arguments.
use mdswp.Prelude.{
  ℕ, zero, suc, Bool, true, false, Option, none, some, List, [], ◌∷◌, ltb, if◌then◌else◌,
}
use mdswp.Util.{
  interrupted, would_block, no_address, instead_of_accept, ErrorKind, IoError, IoResult, ok, err,
  Run, done, panic, hang, conn_timeout, conn_reset_by_peer, conn_timed_out, conn_unexp_seg,
}
use mdswp.Segment.{
  accept, finish, payload, Segment, establish, reset, acknowledge, sequential, try_from,
}
use mdswp.Segment.Text.{segment_text}
use mdswp.Stream.{SocketAddr, StreamInner, new_by_local}

-- Whether an error of the socket only means that nothing has come.
abbrev pub is_nothing : ErrorKind → Bool
is_nothing interrupted = true
is_nothing would_block = true
is_nothing _ = false

-- `_try_recv`, from what `recv` of the socket gives.
unfoldable pub try_recv : IoResult (List ℕ) → IoResult (Option Segment)
try_recv (err e) = if is_nothing e.kind then ok none else err e
try_recv (ok []) = ok none
try_recv (ok (b ∷ bs)) = elim (try_from (b ∷ bs)) [ ok v ↦ ok (some v) | err e ↦ err e ]

-- What the socket does in an attempt: `bound` is the result of making the listener, `told` that of
-- sending the ESTABLISH, and `started` that of starting the listener's thread. A look is the time that
-- has passed and what `recv` gives then.
pub record Attempt : Type 0 where
  pub bound : IoResult (Unit {0})
  pub told : IoResult (Unit {0})
  pub looks : List (ℕ × IoResult (List ℕ))
  pub started : IoResult (Unit {0})

-- The result, and what is sent behind the ESTABLISH.
abbrev pub Answer : Type 0
Answer = IoResult StreamInner × List (SocketAddr × Segment)

abbrev refuse : SocketAddr → Segment → Answer
refuse a other = (err (conn_unexp_seg (instead_of_accept (segment_text other))), (a, reset) ∷ [])

-- The first segment that comes. Where the thread does not start, the new stream is dropped, which
-- resets it.
unfoldable pub answer : SocketAddr → ℕ → Attempt → Segment → Answer
answer a n t reset = (err conn_reset_by_peer, [])
answer a n t (sequential m accept) = elim t.started [
  | ok _ ↦ (ok (new_by_local a n m), [])
  | err e ↦ (err e, (a, reset) ∷ [])
]
answer a n t (sequential m finish) = refuse a (sequential m finish)
answer a n t (sequential m (payload d)) = refuse a (sequential m (payload d))
answer a n t (establish m) = refuse a (establish m)
answer a n t (acknowledge m) = refuse a (acknowledge m)

-- The loop that waits for the ACCEPT. `hang` means that the looks are used up.
unfoldable pub await_accept : SocketAddr → ℕ → Attempt → List (ℕ × IoResult (List ℕ)) → Run Answer
await_accept a n t [] = hang
await_accept a n t ((passed, datagram) ∷ looks) =
    let later = await_accept a n t looks in
    if ltb passed conn_timeout
    then elim (try_recv datagram) [
      | err e ↦ done (err e, [])
      | ok none ↦ later
      | ok (some v) ↦ done (answer a n t v)
    ]
    else done (err conn_timed_out, [])

-- `__try_single_connect_to`; the random number of the ESTABLISH is the argument `n`.
unfoldable pub try_single_connect_to : SocketAddr → ℕ → Attempt → Run Answer
try_single_connect_to a n t = elim t.bound [
  | err e ↦ done (err e, [])
  | ok _ ↦ elim t.told [ err e ↦ done (err e, []) | ok _ ↦ await_accept a n t t.looks ]
]

-- `connect_to`: an attempt is made up to `attempts` times; the error of the last one is returned.
-- `last_err.unwrap()` panics if there was none.
unfoldable pub connect_to {ℓ} :
    {A : Type ℓ} → List (IoResult A) → ℕ → Option IoError → Run (IoResult A)
connect_to results zero none = panic
connect_to results zero (some e) = done (err e)
connect_to [] (suc attempts) last_err = hang
connect_to (ok s ∷ results) (suc attempts) last_err = done (ok s)
connect_to (err e ∷ results) (suc attempts) last_err = connect_to results attempts (some e)

abbrev pub no_address_error : IoError
no_address_error = record { kind = ErrorKind.addr_not_available; message = no_address }

-- `connect`: each address in turn, from what `connect_to` gives for it.
unfoldable pub connect {ℓ} : {A : Type ℓ} → List (IoResult A) → IoError → IoResult A
connect [] last_err = err last_err
connect (ok s ∷ results) last_err = ok s
connect (err e ∷ results) last_err = connect results e
