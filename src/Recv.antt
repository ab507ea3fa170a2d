-- ===== src/Recv.antt =====
-- stream/recv.rs: the receiving half of the window. A call returns its result and the new storage.
-- The loops of `__try_slide_window` run on fuel of 256 rounds, one for each sequence number.
pub mod Loops
pub mod Track
pub mod Slide
pub mod Receive
pub mod Outcome
pub mod Order
pub mod History
pub mod Start
pub mod Bound
pub mod Cleared
mod Tests
use mdswp.Prelude.{
  ℕ, zero, suc, ◌/◌, Bool, true, false, ◌||◌, Option, none, some, List, [], ◌∷◌, ◌++◌, ltb, ◌==◌,
  if◌then◌else◌,
}
use mdswp.Util.{
  wrapping_add, wrapping_sub, window_size, conn_timeout, elapsed, IoResult, ok, err, Run, done,
  panic, hang, ◌>>=◌, conn_invalid_seq_num, conn_unreliable,
}
use mdswp.Segment.{SequentialSegment, accept, seg_eq}
use mdswp.Segment.Text.{sequential_text}

-- `BTreeMap<SequenceNumber, SequentialSegment>`: what is stored at each number.
abbrev pub Segments : Type 0
Segments = ℕ → Option SequentialSegment

abbrev pub no_segments : Segments
no_segments k = none

abbrev pub insert : Segments → ℕ → SequentialSegment → Segments
insert m k v j = if j == k then some v else m j

abbrev pub remove : Segments → ℕ → Segments
remove m k j = if j == k then none else m j

pub record RecvStorage : Type 0 where
  pub segments : Segments
  pub pop_queue : List SequentialSegment
  pub window : ℕ
  pub lower_bound : ℕ
  pub highest : Option ℕ
  pub last_ack : Option (ℕ × ℕ)
  pub urgent_ack : Bool

unfoldable pub new_by_peer : ℕ → RecvStorage
new_by_peer establish_seq_num =
    let window = wrapping_add establish_seq_num 1 in
    record {
      segments = no_segments;
      pop_queue = [];
      window = window;
      lower_bound = window;
      highest = some establish_seq_num;
      last_ack = none;
      urgent_ack = false;
    }

unfoldable pub new_by_local : ℕ → RecvStorage
new_by_local accept_seq_num = record {
  segments = insert no_segments accept_seq_num accept;
  pop_queue = [];
  window = wrapping_add accept_seq_num 1;
  lower_bound = accept_seq_num;
  highest = some accept_seq_num;
  last_ack = none;
  urgent_ack = true;
}

unfoldable pub clear : RecvStorage → RecvStorage
clear s = record s { segments = no_segments }

unfoldable pub check_valid_seq_num : RecvStorage → ℕ → IoResult (Unit {0})
check_valid_seq_num s seq_num =
    let upper_bound = wrapping_add s.window window_size in
    let max_offset = wrapping_sub upper_bound s.lower_bound in
    let offset = wrapping_sub seq_num s.lower_bound in
    if ltb offset max_offset
    then ok tt
    else err (conn_invalid_seq_num seq_num s.lower_bound upper_bound)

unfoldable pub check_presence_of : RecvStorage → ℕ → SequentialSegment → IoResult Bool
check_presence_of s seq_num segment = elim (s.segments seq_num) [
  | none ↦ ok false
  | some expected ↦
      if seg_eq segment expected
      then ok true
      else err (conn_unreliable (sequential_text segment) (sequential_text expected))
]

-- The first number from `new_window` on at which nothing is stored.
unfoldable pub find_window : ℕ → Segments → ℕ → Run ℕ
find_window zero m new_window = hang
find_window (suc f) m new_window = elim (m new_window) [
  | some _ ↦ find_window f m (wrapping_add new_window 1)
  | none ↦ done new_window
]

-- The segments from `index` up to `new_window` go to the queue; indexing the map panics on a
-- missing key.
unfoldable pub queue_passed :
    ℕ → Segments → ℕ → ℕ → List SequentialSegment → Run (List SequentialSegment)
queue_passed zero m index new_window queue = hang
queue_passed (suc f) m index new_window queue = elim (index == new_window) [
  | true ↦ done queue
  | false ↦ elim (m index) [
    | none ↦ panic
    | some v ↦ queue_passed f m (wrapping_add index 1) new_window (queue ++ v ∷ [])
  ]
]

-- The segments from `index` up to `min_lower_bound` are dropped; `unwrap` panics on a missing one.
unfoldable pub remove_old : ℕ → Segments → ℕ → ℕ → Run Segments
remove_old zero m index min_lower_bound = hang
remove_old (suc f) m index min_lower_bound = elim (index == min_lower_bound) [
  | true ↦ done m
  | false ↦ elim (m index) [
    | none ↦ panic
    | some _ ↦ remove_old f (remove m index) (wrapping_add index 1) min_lower_bound
  ]
]

-- The last part of `__try_slide_window`: the lower bound follows the window.
unfoldable pub raise_lower_bound : RecvStorage → Run RecvStorage
raise_lower_bound s =
    let min_lower_bound = wrapping_sub s.window window_size in
    if ltb (wrapping_sub min_lower_bound s.lower_bound) window_size
    then (remove_old 256 s.segments s.lower_bound min_lower_bound >>= λ m.
        done (record s { segments = m; lower_bound = min_lower_bound }))
    else done s

unfoldable pub try_slide_window : RecvStorage → Run RecvStorage
try_slide_window s = do
  new_window ← find_window 256 s.segments s.window
  queue ← queue_passed 256 s.segments s.window new_window s.pop_queue
  raise_lower_bound (record s { pop_queue = queue; window = new_window })

unfoldable pub raise_highest : Option ℕ → ℕ → Option ℕ
raise_highest none seq_num = some seq_num
raise_highest (some old_high) seq_num =
    if ltb (wrapping_sub seq_num old_high) window_size then some seq_num else some old_high

-- The part of `recv` behind the two checks.
unfoldable pub store : RecvStorage → ℕ → SequentialSegment → Run RecvStorage
store s seq_num segment =
    let s' : RecvStorage = record s {
      segments = insert s.segments seq_num segment;
      highest = raise_highest s.highest seq_num;
    } in
    if seq_num == s.window then try_slide_window s' else done s'

-- The checks return early by `?`.
unfoldable pub recv : RecvStorage → ℕ → SequentialSegment → Run (IoResult (Unit {0}) × RecvStorage)
recv s seq_num segment = elim (check_valid_seq_num s seq_num) [
  | err e ↦ done (err e, s)
  | ok _ ↦ elim (check_presence_of s seq_num segment) [
    | err e ↦ done (err e, s)
    | ok true ↦ done (ok tt, record s { urgent_ack = true })
    | ok false ↦ store s seq_num segment >>= λ s'. done (ok tt, s')
  ]
]

unfoldable pub pop : RecvStorage → Option SequentialSegment × RecvStorage
pop s = elim s.pop_queue [ [] ↦ (none, s) | v ∷ rest ↦ (some v, record s { pop_queue = rest }) ]

-- `now` is what `Instant::now()` gives.
unfoldable pub pop_acknowledge : RecvStorage → ℕ → Option ℕ × RecvStorage
pop_acknowledge s now =
    let curr_ack_num = wrapping_sub s.window 1 in
    elim s.last_ack [
      | none ↦ (
        if s.window == s.lower_bound then none else some curr_ack_num,
        record s { last_ack = some (curr_ack_num, now) },
      )
      | some (last_ack_num, last_time) ↦
          if s.urgent_ack
            || (ltb (conn_timeout / 2) (elapsed now last_time)
                || ltb (window_size / 2) (wrapping_sub curr_ack_num last_ack_num))
          then (
            some curr_ack_num,
            record s { urgent_ack = false; last_ack = some (curr_ack_num, now) },
          )
          else (none, s)
    ]
