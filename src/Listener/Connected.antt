-- ===== src/Listener/Connected.antt =====
-- stream/inner.rs: what an attempt to connect comes to, and how attempts and addresses follow.
use mdswp.Prelude.{
  ℕ, ◌+◌, ◌≤◌, ◌<◌, ◌≡◌, refl, ◌∙◌, ap, none, some, List, [], ◌∷◌, ◌++◌, length, take, All, arith,
  lt→ltb,
}
use mdswp.Util.{IoError, IoResult, ok, err, done, conn_timeout}
use mdswp.Segment.{accept, Segment, sequential, try_from}
use mdswp.Segment.RoundTrip.{IsBytes, try_from-IsU8}
use mdswp.Send
use mdswp.Recv.Start.{new_by_local-Tracks}
use mdswp.Recv.Bound.{Any}
use mdswp.Stream.{new_by_local}
use mdswp.Listener.Served.{IsServed}
use mdswp.Listener.Connect.{
  try_recv, Attempt, answer, await_accept, try_single_connect_to, connect_to, connect,
}

-- What came at a look is made of bytes.
abbrev pub IsBytesLook : ℕ × IoResult (List ℕ) → Type 0
IsBytesLook (passed, ok bytes) = IsBytes bytes
IsBytesLook (passed, err e) = Unit

-- Nothing came at a look, in time.
abbrev pub IsIdle : ℕ × IoResult (List ℕ) → Type 0
IsIdle (passed, datagram) = (passed < conn_timeout) × (try_recv datagram ≡ ok none)

idle_look :
    (a n : ℕ) (t : Attempt) (passed : ℕ) (datagram : IoResult (List ℕ))
    (looks : List (ℕ × IoResult (List ℕ)))
    → IsIdle (passed, datagram)
    → await_accept a n t ((passed, datagram) ∷ looks) ≡ await_accept a n t looks
unfolding await_accept
idle_look a n t passed datagram looks (early, nothing) =
    rw (lt→ltb passed conn_timeout early, nothing)

pub await_idle :
    (a n : ℕ) (t : Attempt) (idle looks : List (ℕ × IoResult (List ℕ)))
    → All IsIdle idle
    → await_accept a n t (idle ++ looks) ≡ await_accept a n t looks
await_idle a n t [] looks h = refl
await_idle a n t ((passed, datagram) ∷ idle) looks h =
    idle_look a n t passed datagram (idle ++ looks) h.0 ∙ await_idle a n t idle looks h.1

new_by_local-IsServed : (a n m : ℕ) → m < 256 → IsServed a (new_by_local a n m)
unfolding new_by_local Send.new_by_local
new_by_local-IsServed a n m small = record {
  peer = refl;
  fine = refl;
  valid = record { lo = m; w = m + 1; tracks = new_by_local-Tracks Any m small tt };
  bounded = omega arith;
}

tries :
    (a n : ℕ) (t : Attempt)
    → t.bound ≡ ok tt
    → t.told ≡ ok tt
    → try_single_connect_to a n t ≡ await_accept a n t t.looks
unfolding try_single_connect_to
tries a n t bound told = ground arith

received :
    (bytes : List ℕ) (v : Segment) → try_from bytes ≡ ok v → try_recv (ok bytes) ≡ ok (some v)
unfolding try_recv try_from
received [] v e = cc
received (b ∷ bs) v e = rw (e, try_recv)

accepted :
    (a n m : ℕ) (t : Attempt) (passed : ℕ) (bytes : List ℕ) (looks : List (ℕ × IoResult (List ℕ)))
    → t.started ≡ ok tt
    → passed < conn_timeout
    → try_from bytes ≡ ok (sequential m accept)
    → await_accept a n t ((passed, ok bytes) ∷ looks) ≡ done (ok (new_by_local a n m), [])
unfolding await_accept answer
accepted a n m t passed bytes looks started early decoded =
    rw (lt→ltb passed conn_timeout early, received bytes (sequential m accept) decoded, started)

-- When an ACCEPT is what comes first, in time, behind looks at which nothing came, and the thread of
-- the listener starts: an attempt gives a stream to the peer, without error, whose receiving half is
-- valid, and sends nothing more.
pub connects :
    (a n m : ℕ) (t : Attempt) (idle : List (ℕ × IoResult (List ℕ))) (passed : ℕ) (bytes : List ℕ)
    (looks : List (ℕ × IoResult (List ℕ)))
    → t.bound ≡ ok tt
    → t.told ≡ ok tt
    → t.started ≡ ok tt
    → t.looks ≡ idle ++ (passed, ok bytes) ∷ looks
    → All IsIdle idle
    → passed < conn_timeout
    → IsBytes bytes
    → try_from bytes ≡ ok (sequential m accept)
    → (try_single_connect_to a n t ≡ done (ok (new_by_local a n m), []))
      × IsServed a (new_by_local a n m)
connects a n m t idle passed bytes looks bound told started e h early small decoded = (
  tries a n t bound told
      ∙ ap (await_accept a n t) e
      ∙ await_idle a n t idle ((passed, ok bytes) ∷ looks) h
      ∙ accepted a n m t passed bytes looks started early decoded,
  new_by_local-IsServed a n m (try_from-IsU8 bytes (sequential m accept) small decoded).0,
)

-- Three attempts on an address are what a walk over the first three results is: the first stream
-- that is given, or the error of the last. The result is there as soon as three attempts have ended.
pub connect_to-connect {ℓ} :
    {A : Type ℓ} (results : List (IoResult A)) (e : IoError)
    → 3 ≤ length results
    → connect_to results 3 none ≡ done (connect (take 3 results) e)
unfolding connect_to connect
connect_to-connect [] e h = absurd (omega arith)
connect_to-connect (x ∷ []) e h = absurd (omega arith)
connect_to-connect (x ∷ y ∷ []) e h = absurd (omega arith)
connect_to-connect (ok x ∷ y ∷ z ∷ rest) e h = refl
connect_to-connect (err x ∷ ok y ∷ z ∷ rest) e h = refl
connect_to-connect (err x ∷ err y ∷ ok z ∷ rest) e h = refl
connect_to-connect (err x ∷ err y ∷ err z ∷ rest) e h = refl
