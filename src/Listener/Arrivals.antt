-- ===== src/Listener/Arrivals.antt =====
-- listener/inner.rs: a datagram leaves the queue of a listener alone, or opens one connection.
use mdswp.Prelude.{
  ℕ, ◌≡◌, refl, ◌∙◌, sym, subst, inl, inr, Bool, true, false, none, some, List, [], ◌∷◌, Bool-cases,
}
use mdswp.Stream.Handed.{error_peer, recv_segment_peer}
use mdswp.Listener.Datagram.{at_cases, recv_datagram_known, recv_datagram_unknown}
use mdswp.Listener.Rounds.{round_failed}
use mdswp.Stream.{new_by_peer}
use mdswp.Stream.Incoming.{Outcome}
use mdswp.Listener.{add_connection}
use mdswp.Listener.Accept.{opener}
use mdswp.Util.{
  ErrorKind, addr_not_available, broken_pipe, connection_aborted, connection_reset, interrupted,
  invalid_input, timed_out, unexpected_eof, would_block, other_kind, ◌>>=◌, IoError, IoResult, ok,
  err, Run, done, panic, hang,
}
use mdswp.Segment.{Segment, establish, reset, acknowledge, sequential, try_from}
use mdswp.Stream.{SocketAddr, StreamInner, error, send_to}
use mdswp.Stream.Incoming.{recv_segment}
use mdswp.Listener.{
  ListenerInner, Datagram, listener_is_err, stream_of, listen_round, apply_effect, hand_over,
  recv_known, recv_unknown, recv_datagram, open_connection, recv_failed,
}
use mdswp.Listener.Accept.{opens, LeavesQueue}
use mdswp.Listener.Leaves.{
  same-LeavesQueue, then-LeavesQueue, handed-LeavesQueue, same_listener, went, peer_of_new, leaves,
  opens_one, Arrival,
}

known-LeavesQueue :
    (l l' : ListenerInner) (i : ℕ) (s : StreamInner) (r : IoResult Segment)
    → l.streams i ≡ some s
    → recv_known l i s r ≡ done l'
    → LeavesQueue l l'
unfolding recv_known
known-LeavesQueue l l' i s (err e) at ran =
    subst (LeavesQueue l) (same_listener ran)
      (handed-LeavesQueue l i s (error s e true).0 (error s e true).1 at (error_peer s e true))
known-LeavesQueue l l' i s (ok segment) at ran = by_segment _ refl ran
  where
    by_segment :
        (x : Run Outcome)
        → recv_segment s segment ≡ x
        → (x >>= λ p. done (hand_over l i p)) ≡ done l'
        → LeavesQueue l l'
    by_segment (done (t, es)) e go =
        subst (LeavesQueue l) (same_listener go)
          (handed-LeavesQueue l i s t es at (recv_segment_peer s t segment es e))
    by_segment panic e go = cc
    by_segment hang e go = cc

sent-LeavesQueue :
    (l : ListenerInner) (a : SocketAddr) (segment : Segment)
    → LeavesQueue l (apply_effect l (send_to a segment))
unfolding apply_effect
sent-LeavesQueue l a segment = then-LeavesQueue (same-LeavesQueue l) refl refl refl

opened-Arrival : (l : ListenerInner) (a n m : ℕ) → Arrival l (open_connection l a n m) (a ∷ [])
unfolding open_connection add_connection
opened-Arrival l a n m = opens_one a (new_by_peer a n m) (peer_of_new a n m) refl refl refl

unknown-Arrival :
    (l : ListenerInner) (a n : ℕ) (r : IoResult Segment)
    → Arrival l (recv_unknown l a n r) (opener none r a)
unfolding recv_unknown
unknown-Arrival l a n (ok (establish m)) = opened-Arrival l a m n
unknown-Arrival l a n (ok reset) = leaves (sent-LeavesQueue l a Segment.reset)
unknown-Arrival l a n (ok (acknowledge m)) = leaves (sent-LeavesQueue l a Segment.reset)
unknown-Arrival l a n (ok (sequential m v)) = leaves (sent-LeavesQueue l a Segment.reset)
unknown-Arrival l a n (err e) = leaves (sent-LeavesQueue l a Segment.reset)

stopped-LeavesQueue : (l : ListenerInner) (e : IoError) → LeavesQueue l (record l { state = err e })
stopped-LeavesQueue l e = then-LeavesQueue (same-LeavesQueue l) refl refl refl

failed-LeavesQueue :
    (l l' : ListenerInner) (k : ErrorKind) (e : IoError)
    → recv_failed l k e ≡ done l'
    → LeavesQueue l l'
unfolding recv_failed
failed-LeavesQueue l l' interrupted e ran =
    subst (LeavesQueue l) (same_listener ran) (same-LeavesQueue l)
failed-LeavesQueue l l' would_block e ran = cc
failed-LeavesQueue l l' addr_not_available e ran =
    subst (LeavesQueue l) (same_listener ran) (stopped-LeavesQueue l e)
failed-LeavesQueue l l' broken_pipe e ran =
    subst (LeavesQueue l) (same_listener ran) (stopped-LeavesQueue l e)
failed-LeavesQueue l l' connection_aborted e ran =
    subst (LeavesQueue l) (same_listener ran) (stopped-LeavesQueue l e)
failed-LeavesQueue l l' connection_reset e ran =
    subst (LeavesQueue l) (same_listener ran) (stopped-LeavesQueue l e)
failed-LeavesQueue l l' invalid_input e ran =
    subst (LeavesQueue l) (same_listener ran) (stopped-LeavesQueue l e)
failed-LeavesQueue l l' timed_out e ran =
    subst (LeavesQueue l) (same_listener ran) (stopped-LeavesQueue l e)
failed-LeavesQueue l l' unexpected_eof e ran =
    subst (LeavesQueue l) (same_listener ran) (stopped-LeavesQueue l e)
failed-LeavesQueue l l' (other_kind n) e ran =
    subst (LeavesQueue l) (same_listener ran) (stopped-LeavesQueue l e)

datagram-Arrival :
    (l : ListenerInner) (bytes : List ℕ) (a n : ℕ) (l' : ListenerInner)
    → recv_datagram l bytes a n ≡ done l'
    → Arrival l l' (opener (stream_of l a) (try_from bytes) a)
datagram-Arrival l bytes a n l' ran = elim (at_cases l a) [
  | inl nobody ↦
      let same = same_listener (sym (recv_datagram_unknown l bytes a n nobody) ∙ ran) in
      subst (λ q. Arrival l l' (opener q (try_from bytes) a)) (sym nobody)
        (subst (λ q. Arrival l q (opener none (try_from bytes) a)) same
          (unknown-Arrival l a n (try_from bytes)))
  | inr (i, s, at, stored, found) ↦
      subst (λ q. Arrival l l' (opener q (try_from bytes) a)) (sym found)
        (leaves (
          known-LeavesQueue l l' i s (try_from bytes) stored
            (sym (recv_datagram_known l bytes a n i s found) ∙ ran)))
]

module _ (l : ListenerInner) (n : ℕ) (fine : listener_is_err l ≡ false) where
  round_of_bytes :
      (bytes : List ℕ) (a : SocketAddr) (x : Run ListenerInner)
      → recv_datagram l bytes a n ≡ x
      → listen_round l (ok (bytes, a)) n ≡ x >>= (λ k. done (true, k))
  unfolding listen_round
  round_of_bytes bytes a x e = rw (fine, e) refl

  round_of_error :
      (e : IoError) (x : Run ListenerInner)
      → recv_failed l e.kind e ≡ x
      → listen_round l (err e) n ≡ x >>= (λ k. done (true, k))
  unfolding listen_round
  round_of_error e x h = rw (fine, h) refl

  round-arrives :
      (l' : ListenerInner) (d : Datagram) (goes_on : Bool)
      → listen_round l d n ≡ done (goes_on, l')
      → Arrival l l' (opens l d)
  round-arrives l' (err e) goes_on ran = by_failed _ refl
    where
      by_failed : (x : Run ListenerInner) → recv_failed l e.kind e ≡ x → Arrival l l' []
      by_failed (done k) h =
          let same = went (sym (round_of_error e _ h) ∙ ran) in
          leaves (subst (LeavesQueue l) same (failed-LeavesQueue l k e.kind e h))
      by_failed panic h = let end = sym (round_of_error e _ h) ∙ ran in cc
      by_failed hang h = let end = sym (round_of_error e _ h) ∙ ran in cc
  round-arrives l' (ok (bytes, a)) goes_on ran = by_bytes _ refl
    where
      by_bytes :
          (x : Run ListenerInner)
          → recv_datagram l bytes a n ≡ x
          → Arrival l l' (opens l (ok (bytes, a)))
      by_bytes (done k) h =
          let same = went (sym (round_of_bytes bytes a _ h) ∙ ran) in
          rw fine (
            subst (λ q. Arrival l q (opener (stream_of l a) (try_from bytes) a)) same
              (datagram-Arrival l bytes a n k h))
      by_bytes panic h = let end = sym (round_of_bytes bytes a _ h) ∙ ran in cc
      by_bytes hang h = let end = sym (round_of_bytes bytes a _ h) ∙ ran in cc

nothing_opens : (l : ListenerInner) (d : Datagram) → listener_is_err l ≡ true → opens l d ≡ []
nothing_opens l (err e) bad = refl
nothing_opens l (ok (bytes, a)) bad = rw bad refl

-- A round of the thread, with the sender that opens a connection in it.
pub round-Arrival :
    (l l' : ListenerInner) (d : Datagram) (n : ℕ) (goes_on : Bool)
    → listen_round l d n ≡ done (goes_on, l')
    → Arrival l l' (opens l d)
round-Arrival l l' d n goes_on ran = elim (Bool-cases (listener_is_err l)) [
  | inl bad ↦
      let same = went (sym (round_failed l d n bad) ∙ ran) in
      subst (Arrival l l') (sym (nothing_opens l d bad))
        (leaves (subst (LeavesQueue l) same (same-LeavesQueue l)))
  | inr fine ↦ round-arrives l n fine l' d goes_on ran
]
