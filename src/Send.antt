-- ===== src/Send.antt =====
-- stream/send.rs: the sending half of the window. A call returns its result and the new storage;
-- `assert!` and `unwrap` are the outcome `panic`. `now` is what `Instant::now()` gives.
pub mod Loop
pub mod Positions
pub mod Track
pub mod Window
pub mod Push
pub mod Acknowledge
pub mod Stale
pub mod Unsent
mod Tests
use mdswp.Prelude.{
  ℕ, zero, suc, ◌+◌, ◌/◌, Bool, true, false, ◌&&◌, not, Option, none, some, List, [], ◌∷◌, ◌++◌,
  length, ltb, leb, ◌==◌, if◌then◌else◌,
}
use mdswp.Util.{
  wrapping_add, wrapping_sub, window_size, conn_timeout, elapsed, IoResult, ok, err, Run, done,
  panic, ◌>>=◌, invalid_ack, conn_unexp_seg, conn_write_finished,
}
use mdswp.Segment.{SequentialSegment, accept, finish, payload, seg_eq}

-- `(SequenceNumber, SequentialSegment, Instant)`
pub record SentSegment : Type 0 where
  pub seq_num : ℕ
  pub segment : SequentialSegment
  pub last_pop : ℕ

-- The front of a queue is the head of its list.
pub record SendStorage : Type 0 where
  pub queue_sent : List SentSegment
  pub queue_unsent : List SequentialSegment
  pub next_unsent : ℕ

unfoldable pub new_by_peer : ℕ → SendStorage
new_by_peer accept_seq_num = record {
  queue_sent = [];
  queue_unsent = accept ∷ [];
  next_unsent = accept_seq_num;
}

unfoldable pub new_by_local : ℕ → SendStorage
new_by_local establish_seq_num = record {
  queue_sent = [];
  queue_unsent = [];
  next_unsent = wrapping_add establish_seq_num 1;
}

unfoldable pub clear : SendStorage → SendStorage
clear s = record s { queue_sent = []; queue_unsent = [] }

abbrev pub null {ℓ} : {A : Type ℓ} → List A → Bool
null [] = true
null (x ∷ xs) = false

unfoldable pub is_empty : SendStorage → Bool
is_empty s = null s.queue_sent && null s.queue_unsent

-- A segment whose time has come goes to the back of the queue, as sent now.
unfoldable pub try_pop_sent : SendStorage → ℕ → Option (ℕ × SequentialSegment) × SendStorage
try_pop_sent s now = elim s.queue_sent [
  | [] ↦ (none, s)
  | e ∷ rest ↦
      if ltb (conn_timeout / 2) (elapsed now e.last_pop)
      then (
        some (e.seq_num, e.segment),
        record s { queue_sent = rest ++ record e { last_pop = now } ∷ [] },
      )
      else (none, record s { queue_sent = e ∷ rest })
]

unfoldable pub try_pop_unsent : SendStorage → ℕ → Run (Option (ℕ × SequentialSegment) × SendStorage)
try_pop_unsent s now =
    if leb (length s.queue_sent) window_size
    then (if length s.queue_sent == window_size then done (none, s) else elim s.queue_unsent [
      | [] ↦ done (none, s)
      | v ∷ rest ↦ done (
        some (s.next_unsent, v),
        record {
          queue_sent =
              s.queue_sent ++ record { seq_num = s.next_unsent; segment = v; last_pop = now } ∷ [];
          queue_unsent = rest;
          next_unsent = wrapping_add s.next_unsent 1;
        },
      )
    ])
    else panic

-- `or_else`: an unsent segment only if no sent one is due.
unfoldable pub pop : SendStorage → ℕ → Run (Option (ℕ × SequentialSegment) × SendStorage)
pop s now =
    let (found, s') = try_pop_sent s now in
    elim found [ some r ↦ done (some r, s') | none ↦ try_pop_unsent s' now ]

abbrev pub last {ℓ} : {A : Type ℓ} → A → List A → A
last a [] = a
last a (x ∷ xs) = last x xs

-- The first sent segment of a given number.
unfoldable pub find_sent : ℕ → List SentSegment → Option SequentialSegment
find_sent n [] = none
find_sent n (e ∷ es) = if e.seq_num == n then some e.segment else find_sent n es

unfoldable pub finished_unchecked : SendStorage → Run Bool
finished_unchecked s = if is_empty s then done false else elim s.queue_unsent [
  | v ∷ vs ↦ done (seg_eq (last v vs) finish)
  | [] ↦ elim (find_sent (wrapping_sub s.next_unsent 1) s.queue_sent) [
    | none ↦ panic
    | some highest ↦ done (seg_eq highest finish)
  ]
]

abbrev pub push_back : SendStorage → SequentialSegment → SendStorage
push_back s v = record s { queue_unsent = s.queue_unsent ++ v ∷ [] }

-- FINISH and DATA: not after a FINISH.
unfoldable pub push_checked :
    SendStorage → SequentialSegment → Run (IoResult (Unit {0}) × SendStorage)
push_checked s v = do
  finished ← finished_unchecked s
  if finished then done (err conn_write_finished, s) else done (ok tt, push_back s v)

unfoldable pub push : SendStorage → SequentialSegment → Run (IoResult (Unit {0}) × SendStorage)
unfolding push_checked
push s accept = if is_empty s then done (ok tt, push_back s accept) else panic
push s finish = push_checked s finish
push s (payload d) = push_checked s (payload d)

-- `queue_sent[index]` and `queue_sent.remove(index)`
abbrev pub sent_at : List SentSegment → ℕ → Option SentSegment
sent_at [] i = none
sent_at (e ∷ es) zero = some e
sent_at (e ∷ es) (suc i) = sent_at es i

abbrev pub remove_at : List SentSegment → ℕ → List SentSegment
remove_at [] i = []
remove_at (e ∷ es) zero = es
remove_at (e ∷ es) (suc i) = e ∷ remove_at es i

-- Whether a number is acknowledged by `ack_num`.
abbrev pub acknowledged : ℕ → ℕ → Bool
acknowledged ack_num seq_num = ltb (wrapping_sub ack_num seq_num) window_size

-- The loop over the indices below `index`, from the last one down.
unfoldable pub remove_acknowledged : ℕ → ℕ → List SentSegment → Run (List SentSegment)
remove_acknowledged ack_num zero es = done es
remove_acknowledged ack_num (suc index) es = elim (sent_at es index) [
  | none ↦ panic
  | some e ↦
      remove_acknowledged ack_num index
        (if acknowledged ack_num e.seq_num then remove_at es index else es)
]

unfoldable pub acknowledge : SendStorage → ℕ → Run (IoResult (Unit {0}) × SendStorage)
acknowledge s ack_num =
    if leb window_size (wrapping_sub s.next_unsent ack_num)
    then done (err (conn_unexp_seg (invalid_ack ack_num)), s)
    else (remove_acknowledged ack_num (length s.queue_sent) s.queue_sent >>= λ es.
        done (ok tt, record s { queue_sent = es }))
