-- ===== src/Stream/Reading.antt =====
-- stream/inner.rs: the loop of `read` takes segments from the queue until it has a byte.
use mdswp.Prelude.{
  ℕ, zero, suc, ◌≤◌, ◌<◌, ◌≡◌, refl, ◌∙◌, sym, subst, Bool, true, false, some, List, [], ◌∷◌, ◌++◌,
  append_assoc, arith, length,
}
use mdswp.Util.{IoResult, ok, Run, done, hang}
use mdswp.Segment.{DataSegment, SequentialSegment, accept, finish, payload}
use mdswp.Recv.{RecvStorage, pop}
use mdswp.Stream.{StreamInner, is_read_finished, stream_state}
use mdswp.Stream.Incoming.{take_segment, read_loop}

-- The bytes of the queued DATA before the first FINISH.
abbrev pub bytes_before_finish : List SequentialSegment → List ℕ
bytes_before_finish [] = []
bytes_before_finish (finish ∷ vs) = []
bytes_before_finish (payload d ∷ vs) = d.bytes ++ bytes_before_finish vs
bytes_before_finish (accept ∷ vs) = bytes_before_finish vs

abbrev pub has_finish : List SequentialSegment → Bool
has_finish [] = false
has_finish (finish ∷ vs) = true
has_finish (payload d ∷ vs) = has_finish vs
has_finish (accept ∷ vs) = has_finish vs

-- The bytes that can still be read, in order.
abbrev pub pending : StreamInner → List ℕ
pending s = s.recv_buffer ++ bytes_before_finish s.recv_storage.pop_queue

abbrev pub IsOpen : StreamInner → Type 0
IsOpen s = (s.conn_state ≡ ok tt) × (s.recv_finished ≡ false)

-- How the loop of `read` ends.
pub data Looked (s : StreamInner) (out : Run (IoResult (Unit {0}) × StreamInner)) : Type 0 where
  waits : out ≡ hang → pending s ≡ [] → has_finish s.recv_storage.pop_queue ≡ false → Looked s out
  ready :
      (s' : StreamInner)
      → out ≡ done (ok tt, s')
      → IsOpen s'
      → 1 ≤ length s'.recv_buffer
      → pending s' ≡ pending s
      → has_finish s'.recv_storage.pop_queue ≡ has_finish s.recv_storage.pop_queue
      → Looked s out
  ended :
      (s' : StreamInner)
      → out ≡ done (ok tt, s')
      → s'.recv_finished ≡ true
      → s'.recv_buffer ≡ []
      → pending s ≡ []
      → has_finish s.recv_storage.pop_queue ≡ true
      → Looked s out

-- The same loop from a later state, with the same bytes to come.
Looked-later :
    (s t : StreamInner) {inner out : Run (IoResult (Unit {0}) × StreamInner)}
    → out ≡ inner
    → pending t ≡ pending s
    → has_finish t.recv_storage.pop_queue ≡ has_finish s.recv_storage.pop_queue
    → Looked t inner
    → Looked s out
Looked-later s t e p h (waits a b c) = waits (e ∙ a) (sym p ∙ b) (sym h ∙ c)
Looked-later s t e p h (ready s' a o b c d) = ready s' (e ∙ a) o b (c ∙ p) (d ∙ h)
Looked-later s t e p h (ended s' a b c d f) = ended s' (e ∙ a) b c (sym p ∙ d) (sym h ∙ f)

-- The state after one segment.
abbrev pub after_pop : StreamInner → SequentialSegment → List SequentialSegment → StreamInner
after_pop s v vs =
    take_segment (record s { recv_storage = record s.recv_storage { pop_queue = vs } }) v

pub round_buffered :
    (f : ℕ) (s : StreamInner) (b : ℕ) (bs : List ℕ)
    → s.recv_buffer ≡ b ∷ bs
    → read_loop (suc f) s ≡ done (ok tt, s)
unfolding read_loop
round_buffered f s b bs e = rw e

pub pop_head :
    (st : RecvStorage) (v : SequentialSegment) (vs : List SequentialSegment)
    → st.pop_queue ≡ v ∷ vs
    → pop st ≡ (some v, record st { pop_queue = vs })
unfolding pop
pop_head st v vs e = rw e

pub still_open : (s : StreamInner) → IsOpen s → is_read_finished s ≡ ok false
unfolding is_read_finished stream_state
still_open s live = ground arith

module _ (f : ℕ) (s : StreamInner) (empty : s.recv_buffer ≡ []) (live : IsOpen s) where
  pub round_waits : s.recv_storage.pop_queue ≡ [] → read_loop (suc f) s ≡ hang
  unfolding read_loop is_read_finished stream_state pop
  round_waits e = ground arith

  pub round_pops :
      (v : SequentialSegment) (vs : List SequentialSegment)
      → s.recv_storage.pop_queue ≡ v ∷ vs
      → read_loop (suc f) s ≡ read_loop f (after_pop s v vs)
  unfolding read_loop
  round_pops v vs e = let popped = pop_head s.recv_storage v vs e in cc (still_open s live, popped)

pub round_ends :
    (f : ℕ) (s : StreamInner)
    → s.recv_buffer ≡ []
    → s.conn_state ≡ ok tt
    → s.recv_finished ≡ true
    → read_loop (suc f) s ≡ done (ok tt, s)
unfolding read_loop is_read_finished stream_state
round_ends f s empty fine over = ground arith

module _ (f : ℕ) (s : StreamInner) where
  abbrev queue : List SequentialSegment
  queue = s.recv_storage.pop_queue

  -- Some bytes are buffered: the loop ends at once.
  Looked-buffered :
      (b : ℕ) (bs : List ℕ) → s.recv_buffer ≡ b ∷ bs → IsOpen s → Looked s (read_loop (suc f) s)
  Looked-buffered b bs e live =
      ready s (round_buffered f s b bs e) live (rw e (omega arith)) refl refl

  module _ (empty : s.recv_buffer ≡ []) (live : IsOpen s) where
    Looked-none : queue ≡ [] → Looked s (read_loop (suc f) s)
    Looked-none e = waits (round_waits f s empty live e) (rw (empty, e)) (rw e)

    Looked-accept :
        (vs : List SequentialSegment)
        → queue ≡ accept ∷ vs
        → Looked (after_pop s accept vs) (read_loop f (after_pop s accept vs))
        → Looked s (read_loop (suc f) s)
    unfolding take_segment
    Looked-accept vs e =
        Looked-later s (after_pop s accept vs) (round_pops f s empty live accept vs e) (rw e) (rw e)

    Looked-payload :
        (d : DataSegment) (vs : List SequentialSegment)
        → queue ≡ payload d ∷ vs
        → Looked (after_pop s (payload d) vs) (read_loop f (after_pop s (payload d) vs))
        → Looked s (read_loop (suc f) s)
    unfolding take_segment
    Looked-payload d vs e =
        Looked-later s (after_pop s (payload d) vs) (round_pops f s empty live (payload d) vs e)
          (rw e (append_assoc s.recv_buffer d.bytes (bytes_before_finish vs))) (rw e)

Looked-finish :
    (f : ℕ) (s : StreamInner) (vs : List SequentialSegment)
    → s.recv_buffer ≡ []
    → IsOpen s
    → s.recv_storage.pop_queue ≡ finish ∷ vs
    → Looked s (read_loop (suc (suc f)) s)
unfolding take_segment
Looked-finish f s vs empty live e =
    ended (after_pop s finish vs)
      (round_pops (suc f) s empty live finish vs e
        ∙ round_ends f (after_pop s finish vs) empty live.0 refl)
      refl empty (rw (empty, e)) (rw e)

positive : (f : ℕ) → 1 ≤ f → (f' : ℕ) × (f ≡ suc f')
positive zero h = absurd (omega arith)
positive (suc f) h = (f, refl)

-- The loop of `read`, with a round for each queued segment and one to stop.
pub read_loop_lem :
    (f : ℕ) (s : StreamInner) (buf : List ℕ) (vs : List SequentialSegment)
    → IsOpen s
    → s.recv_buffer ≡ buf
    → s.recv_storage.pop_queue ≡ vs
    → length vs < f
    → Looked s (read_loop f s)
unfolding take_segment
read_loop_lem zero s buf vs live e q fuel = absurd (omega arith)
read_loop_lem (suc f) s (b ∷ bs) vs live e q fuel = Looked-buffered f s b bs e live
read_loop_lem (suc f) s [] [] live e q fuel = Looked-none f s e live q
read_loop_lem (suc f) s [] (accept ∷ vs) live e q fuel =
    let t = after_pop s accept vs in
    Looked-accept f s e live vs q (read_loop_lem f t t.recv_buffer vs live refl refl (omega arith))
read_loop_lem (suc f) s [] (payload d ∷ vs) live e q fuel =
    let t = after_pop s (payload d) vs in
    Looked-payload f s e live d vs q
      (read_loop_lem f t t.recv_buffer vs live refl refl (omega arith))
read_loop_lem (suc f) s [] (finish ∷ vs) live e q fuel =
    let (f', same) = positive f (omega arith) in
    subst (λ g. Looked s (read_loop (suc g) s)) (sym same) (Looked-finish f' s vs e live q)
