-- ===== src/Link/Settle/Begin.antt =====
-- stream/send.rs and stream/recv.rs together: the lower bound at the beginning of a connection.
use mdswp.Prelude.{ℕ, ◌+◌, ◌<◌, ◌≡◌, ap, some, List, [], ◌∷◌, length, arith}
use mdswp.Util.{done, wrapping_add}
use mdswp.Segment.{SequentialSegment, accept}
use mdswp.Send.{SendStorage}
use mdswp.Send
use mdswp.Recv
use mdswp.Link.{with_queued, fresh_sides, answering_sides}
use mdswp.Link.Settle.Low.{Low}

pub fresh-Low : (n : ℕ) → Low (n + 1) (fresh_sides n)
unfolding Recv.new_by_peer Send.new_by_local
fresh-Low n = omega arith

-- When the ACCEPT is popped it alone is outstanding.
pub answering-Low :
    (m now : ℕ) (us : List SequentialSegment) (s : SendStorage)
    → m < 256
    → Send.pop (with_queued (Send.new_by_peer m) us) now ≡ done (some (m, accept), s)
    → Low (m + 1) (answering_sides m us s)
unfolding Recv.new_by_local Send.new_by_peer Send.pop Send.try_pop_sent Send.try_pop_unsent
answering-Low m now us s small ran =
    let popped : SendStorage = record {
      queue_sent = record { seq_num = m; segment = accept; last_pop = now } ∷ [];
      queue_unsent = us;
      next_unsent = wrapping_add m 1;
    } in
    let same : popped ≡ s = cc ran in
    let sent = ap (λ q. length q.queue_sent) same in
    let waiting = ap (λ q. length q.queue_unsent) same in omega arith
