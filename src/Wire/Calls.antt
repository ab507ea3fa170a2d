-- ===== src/Wire/Calls.antt =====
-- stream/inner.rs: each method of a stream is a run of atoms, on either side.
use mdswp.Prelude.{ℕ, ◌≡◌, some, List, []}
use mdswp.Util.{IoResult, ok, done}
use mdswp.Segment.{Segment, acknowledge, sequential}
use mdswp.Stream.{StreamInner, Effect, write, flush, reset_stream}
use mdswp.Stream.Incoming.{recv_segment, read}
use mdswp.Stream.Worker.{Round, worker_round}
use mdswp.Stream.Closing.{finish_write, finish_wait, drop_stream}
use mdswp.Wire.{Wire, heard, got, MaySend, MayReceive}
use mdswp.Wire.Reads.{given}

-- What is asked of a segment that comes in: that it is one the network may bring.
abbrev pub MayTell : ℕ → Wire → Segment → Type 0
MayTell start w (acknowledge n) = (i : ℕ) × MaySend start (heard i n) w w.near
MayTell start w _ = Unit

abbrev pub MayGet : ℕ → Wire → Segment → Type 0
MayGet start w (sequential n v) = (i : ℕ) × MayReceive start (got i n v) w
MayGet start w _ = Unit

-- A method of a stream, which returns. The stream has no error, but in a round of the worker and
-- in the drop, which look for themselves. `w` comes to `near` and `far`; `bytes` are given
-- to `write`, and `out` is what `read` gives.
pub data Call (start : ℕ) (w : Wire) : StreamInner → StreamInner → List ℕ → List ℕ → Type 0 where
  writes :
      (bytes : List ℕ) (r : IoResult ℕ) (s : StreamInner)
      → w.near.conn_state ≡ ok tt
      → write w.near bytes ≡ done (r, s)
      → Call start w s w.far bytes []
  flushes :
      (r : IoResult (Unit {0})) (s : StreamInner)
      → w.near.conn_state ≡ ok tt
      → flush w.near ≡ done (r, s)
      → Call start w s w.far [] []
  finishes_write :
      (r : IoResult (Unit {0})) (s : StreamInner) (effects : List Effect)
      → w.near.conn_state ≡ ok tt
      → finish_write w.near ≡ done (r, s, effects)
      → Call start w s w.far [] []
  waits :
      (s : StreamInner)
      → w.near.conn_state ≡ ok tt
      → finish_wait w.near ≡ some s
      → Call start w s w.far [] []
  reads :
      (size : ℕ) (r : IoResult (List ℕ)) (s : StreamInner)
      → w.far.conn_state ≡ ok tt
      → read w.far size ≡ done (r, s)
      → Call start w w.near s [] (given r)
  near_works :
      (socket : Segment → IoResult (Unit {0})) (now : ℕ) (x : Round)
      → worker_round socket now w.near ≡ done x
      → Call start w x.1 w.far [] []
  far_works :
      (socket : Segment → IoResult (Unit {0})) (now : ℕ) (x : Round)
      → worker_round socket now w.far ≡ done x
      → Call start w w.near x.1 [] []
  near_told :
      (segment : Segment) (s : StreamInner) (effects : List Effect)
      → w.near.conn_state ≡ ok tt
      → MayTell start w segment
      → recv_segment w.near segment ≡ done (s, effects)
      → Call start w s w.far [] []
  far_told :
      (segment : Segment) (s : StreamInner) (effects : List Effect)
      → w.far.conn_state ≡ ok tt
      → MayGet start w segment
      → recv_segment w.far segment ≡ done (s, effects)
      → Call start w w.near s [] []
  near_resets :
      (r : IoResult (Unit {0})) (s : StreamInner) (effects : List Effect)
      → w.near.conn_state ≡ ok tt
      → reset_stream w.near ≡ (r, s, effects)
      → Call start w s w.far [] []
  far_resets :
      (r : IoResult (Unit {0})) (s : StreamInner) (effects : List Effect)
      → w.far.conn_state ≡ ok tt
      → reset_stream w.far ≡ (r, s, effects)
      → Call start w w.near s [] []
  near_drops :
      (s : StreamInner) (effects : List Effect)
      → drop_stream w.near ≡ done (s, effects)
      → Call start w s w.far [] []
  far_drops :
      (s : StreamInner) (effects : List Effect)
      → drop_stream w.far ≡ done (s, effects)
      → Call start w w.near s [] []
