-- ===== src/Listener/Rounds.antt =====
-- listener/inner.rs: a round of `__listen_thread`, and any number of them.
use mdswp.Prelude.{ℕ, ◌≡◌, ◌≢◌, refl, ◌∙◌, inl, inr, true, false, not, List, Bool-cases}
use mdswp.Util.{
  ErrorKind, addr_not_available, broken_pipe, connection_aborted, connection_reset, interrupted,
  invalid_input, timed_out, unexpected_eof, would_block, other_kind, IoError, ok, err, Run, done,
}
use mdswp.Segment.RoundTrip.{IsBytes}
use mdswp.Listener.{
  ListenerInner, Datagram, listener_is_err, recv_failed, recv_datagram, listen_round,
}
use mdswp.Listener.Sound.{IsSound}
use mdswp.Listener.Datagram.{recv_datagram-IsSound}

-- What a blocking socket can give: bytes, or an error that is not that it would block.
abbrev pub IsBlocking : Datagram → Type 0
IsBlocking (ok (bytes, a)) = IsBytes bytes
IsBlocking (err e) = e.kind ≢ would_block

stopped-IsSound :
    (l : ListenerInner) (e : IoError) → IsSound l → IsSound (record l { state = err e })
stopped-IsSound l e v = record { served = v.served; distinct = v.distinct; allocated = v.allocated }

abbrev Handled : Run ListenerInner → Type 0
Handled out = (l' : ListenerInner) × (out ≡ done l') × IsSound l'

recv_failed-Handled :
    (l : ListenerInner) (k : ErrorKind) (e : IoError)
    → IsSound l
    → k ≢ would_block
    → Handled (recv_failed l k e)
unfolding recv_failed
recv_failed-Handled l interrupted e v h = (l, refl, v)
recv_failed-Handled l would_block e v h = absurd (h refl)
recv_failed-Handled l addr_not_available e v h = (_, refl, stopped-IsSound l e v)
recv_failed-Handled l broken_pipe e v h = (_, refl, stopped-IsSound l e v)
recv_failed-Handled l connection_aborted e v h = (_, refl, stopped-IsSound l e v)
recv_failed-Handled l connection_reset e v h = (_, refl, stopped-IsSound l e v)
recv_failed-Handled l invalid_input e v h = (_, refl, stopped-IsSound l e v)
recv_failed-Handled l timed_out e v h = (_, refl, stopped-IsSound l e v)
recv_failed-Handled l unexpected_eof e v h = (_, refl, stopped-IsSound l e v)
recv_failed-Handled l (other_kind k) e v h = (_, refl, stopped-IsSound l e v)

-- The listener after a round, and whether its thread goes on.
abbrev pub Rounded : ListenerInner → Datagram → ℕ → Type 0
Rounded l d n =
    (l' : ListenerInner) × (listen_round l d n ≡ done (not (listener_is_err l), l')) × IsSound l'

pub round_failed :
    (l : ListenerInner) (d : Datagram) (n : ℕ)
    → listener_is_err l ≡ true
    → listen_round l d n ≡ done (false, l)
unfolding listen_round
round_failed l d n e = rw e

round_bytes :
    (l l' : ListenerInner) (bytes : List ℕ) (a n : ℕ)
    → listener_is_err l ≡ false
    → recv_datagram l bytes a n ≡ done l'
    → listen_round l (ok (bytes, a)) n ≡ done (true, l')
unfolding listen_round
round_bytes l l' bytes a n e ran = rw (e, ran)

round_error :
    (l l' : ListenerInner) (e : IoError) (n : ℕ)
    → listener_is_err l ≡ false
    → recv_failed l e.kind e ≡ done l'
    → listen_round l (err e) n ≡ done (true, l')
unfolding listen_round
round_error l l' e n fine ran = rw (fine, ran)

-- On a listener with `IsSound`, whatever a blocking socket gives, a round of the thread returns and
-- keeps `IsSound`: `unreachable` is not reached, and no datagram makes it panic. The thread goes on
-- just when the listener had no error.
pub listen_round-IsSound :
    (l : ListenerInner) (d : Datagram) (n : ℕ) → IsSound l → IsBlocking d → Rounded l d n
listen_round-IsSound l d n v h = elim (Bool-cases (listener_is_err l)) [
  | inl failed ↦ (l, round_failed l d n failed ∙ rw failed, v)
  | inr fine ↦ by_datagram d h fine
]
  where
    by_datagram : (d : Datagram) → IsBlocking d → listener_is_err l ≡ false → Rounded l d n
    by_datagram (ok (bytes, a)) small fine =
        let (l', ran, kept, others) = recv_datagram-IsSound l bytes a n v small in
        (l', round_bytes l l' bytes a n fine ran ∙ rw fine, kept)
    by_datagram (err e) h fine =
        let (l', ran, kept) = recv_failed-Handled l e.kind e v h in
        (l', round_error l l' e n fine ran ∙ rw fine, kept)
