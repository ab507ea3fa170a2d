-- ===== src/Stream/Handed.antt =====
-- stream/inner.rs: what the storages answer to a segment that is handed in.
use mdswp.Prelude.{ℕ, ◌≡◌, refl, sym, ap, List, Bool, true, false, Bool-cases, inl, inr, ◌∙◌}
use mdswp.Util.{
  IoError, IoResult, ok, err, Run, done, panic, hang, ◌>>=◌, conn_reset_by_peer,
  conn_unexp_establish,
}
use mdswp.Segment.{SequentialSegment, Segment, establish, reset, acknowledge, sequential}
use mdswp.Send.{SendStorage}
use mdswp.Send
use mdswp.Recv.{RecvStorage, recv}
use mdswp.Stream.{StreamInner, Effect, error, is_err}
use mdswp.Stream.Incoming.{Outcome, recv_acknowledge, recv_sequential, recv_segment, after_storage}

-- What a storage has answered is what the stream is then.
pub acknowledged_by :
    (s t : StreamInner) (n : ℕ) (effects : List Effect)
    → recv_acknowledge s n ≡ done (t, effects)
    → (r : IoResult (Unit {0})) × (st : SendStorage) × (Send.acknowledge s.send_storage n
        ≡ done (r, st))
      × (t ≡ (after_storage r (record s { send_storage = st })).0)
unfolding recv_acknowledge
acknowledged_by s t n effects out = by_answer _ refl out
  where
    by_answer :
        (x : Run (IoResult (Unit {0}) × SendStorage))
        → Send.acknowledge s.send_storage n ≡ x
        → (x >>= λ p. done (after_storage p.0 (record s { send_storage = p.1 })))
          ≡ done (t, effects)
        → (r : IoResult (Unit {0})) × (st : SendStorage) × (Send.acknowledge s.send_storage n
            ≡ done (r, st))
          × (t ≡ (after_storage r (record s { send_storage = st })).0)
    by_answer (done (r, st)) e go = (r, st, e, cc)
    by_answer panic e go = cc
    by_answer hang e go = cc

pub received_by :
    (s t : StreamInner) (n : ℕ) (v : SequentialSegment) (effects : List Effect)
    → recv_sequential s n v ≡ done (t, effects)
    → (r : IoResult (Unit {0})) × (st : RecvStorage) × (recv s.recv_storage n v ≡ done (r, st))
      × (t ≡ (after_storage r (record s { recv_storage = st })).0)
unfolding recv_sequential
received_by s t n v effects out = by_answer _ refl out
  where
    by_answer :
        (x : Run (IoResult (Unit {0}) × RecvStorage))
        → recv s.recv_storage n v ≡ x
        → (x >>= λ p. done (after_storage p.0 (record s { recv_storage = p.1 })))
          ≡ done (t, effects)
        → (r : IoResult (Unit {0})) × (st : RecvStorage) × (recv s.recv_storage n v ≡ done (r, st))
          × (t ≡ (after_storage r (record s { recv_storage = st })).0)
    by_answer (done (r, st)) e go = (r, st, e, cc)
    by_answer panic e go = cc
    by_answer hang e go = cc

pub outcome :
    {x : Outcome} {s : StreamInner} {effects : List Effect} → done x ≡ done (s, effects) → x.0 ≡ s
outcome e = cc

pub error_peer :
    (s : StreamInner) (e : IoError) (told : Bool) → (error s e told).0.peer_addr ≡ s.peer_addr
unfolding error
error_peer s e told = elim (Bool-cases (is_err s)) [
  | inl bad ↦ rw bad refl
  | inr fine ↦ rw fine refl
]

stored_peer :
    (s : StreamInner) (r : IoResult (Unit {0})) → (after_storage r s).0.peer_addr ≡ s.peer_addr
stored_peer s (ok u) = refl
stored_peer s (err e) = error_peer s e true

-- A stream keeps its peer.
pub recv_segment_peer :
    (s t : StreamInner) (segment : Segment) (effects : List Effect)
    → recv_segment s segment ≡ done (t, effects)
    → t.peer_addr ≡ s.peer_addr
unfolding recv_segment
recv_segment_peer s t reset effects e =
    ap (λ q. q.peer_addr) (sym (outcome e)) ∙ error_peer s conn_reset_by_peer false
recv_segment_peer s t (establish n) effects e =
    ap (λ q. q.peer_addr) (sym (outcome e)) ∙ error_peer s conn_unexp_establish true
recv_segment_peer s t (acknowledge n) effects e =
    let (r, st, ran, same) = acknowledged_by s t n effects e in
    ap (λ q. q.peer_addr) same ∙ stored_peer (record s { send_storage = st }) r
recv_segment_peer s t (sequential n v) effects e =
    let (r, st, ran, same) = received_by s t n v effects e in
    ap (λ q. q.peer_addr) same ∙ stored_peer (record s { recv_storage = st }) r
