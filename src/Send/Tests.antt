-- ===== src/Send/Tests.antt =====
-- stream/send.rs: a full window of ten sent segments, in the order in which they were sent.
use mathlib.Core.List.Perm
use mdswp.Prelude.{ℕ, ◌≡◌, ◌≢◌, refl, some, List, [], ◌∷◌, arith, map}
use mdswp.Util.{done, panic, ok, err, invalid_ack, conn_unexp_seg}
use mdswp.Segment.{SequentialSegment, accept, payload}
use mdswp.Send.{
  SentSegment, SendStorage, pop, try_pop_sent, try_pop_unsent, push, acknowledge,
  remove_acknowledged, new_by_peer,
}
use mdswp.Send.Loop.{remove_acknowledged_filters}
use mdswp.Send.Track.{Outstanding}
use mdswp.Send.Window.{Popped, pop_lem}
use mdswp.Send.Acknowledge.{acknowledge-Outstanding, acknowledge_full_refused}
use mdswp.Send.Unsent.{acknowledge_unsent_panics}

abbrev byte : ℕ → SequentialSegment
byte n = payload (record { bytes = n ∷ [] })

abbrev sent_segment : ℕ → SentSegment
sent_segment n = record { seq_num = n; segment = byte n; last_pop = 0 }

abbrev sent_numbers : List ℕ
sent_numbers = 7 ∷ 8 ∷ 9 ∷ 10 ∷ 11 ∷ 12 ∷ 13 ∷ 14 ∷ 15 ∷ 16 ∷ []

abbrev full : SendStorage
full = record { queue_sent = map sent_segment sent_numbers; queue_unsent = []; next_unsent = 17 }

full-Outstanding : Outstanding byte 7 17 full
full-Outstanding = record {
  at = sent_numbers;
  ordered = omega arith;
  few = omega arith;
  next_at = refl;
  each_once = Perm.refl sent_numbers;
  between = omega arith;
  matches = ground arith;
  waiting = refl;
}

abbrev fresh : SendStorage
fresh = new_by_peer 250

-- ACCEPT is sent first, and again once half of the timeout is over.
first_pop :
    pop fresh 5
    ≡ done (
      some (250, accept),
      record {
        queue_sent = record { seq_num = 250; segment = accept; last_pop = 5 } ∷ [];
        queue_unsent = [];
        next_unsent = 251;
      },
    )
unfolding pop try_pop_sent try_pop_unsent new_by_peer
first_pop = refl

pop_lem_example : Popped byte 7 17 (pop full 9)
pop_lem_example = pop_lem byte 7 17 full 9 full-Outstanding

remove_acknowledged_filters_example :
    remove_acknowledged 9 10 (map sent_segment sent_numbers)
    ≡ done (map sent_segment (10 ∷ 11 ∷ 12 ∷ 13 ∷ 14 ∷ 15 ∷ 16 ∷ []))
remove_acknowledged_filters_example = remove_acknowledged_filters 9 (map sent_segment sent_numbers)

acknowledge-Outstanding_example :
    (s' : SendStorage) × (acknowledge full 9 ≡ done (ok tt, s')) × Outstanding byte 10 17 s'
acknowledge-Outstanding_example =
    acknowledge-Outstanding byte 7 17 9 full full-Outstanding (omega arith) (omega arith)
      (omega arith)

acknowledge_full_refused_example :
    acknowledge full 7 ≡ done (err (conn_unexp_seg (invalid_ack 7)), full)
acknowledge_full_refused_example =
    acknowledge_full_refused byte 7 17 7 full full-Outstanding refl (omega arith) (omega arith)

acknowledge_unsent_panics_example :
    (s' : SendStorage) × (acknowledge full 17 ≡ done (ok tt, s'))
    × ((u : SequentialSegment) → u ≢ accept → push s' u ≡ panic)
acknowledge_unsent_panics_example = acknowledge_unsent_panics byte 7 full full-Outstanding refl
