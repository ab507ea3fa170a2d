-- ===== src/Recv/Order.antt =====
-- stream/recv.rs: what comes out of the storage over a whole history of calls.
use mdswp.Prelude.{
  ℕ, suc, ◌+◌, ◌-◌, ◌%◌, ◌≤◌, ◌<◌, ◌≡◌, refl, ◌∙◌, subst, some, Option, List, [], ◌∷◌, ◌++◌, arith,
  length, positions,
}
use mdswp.Util.{done, IoResult, wrapping_sub}
use mdswp.Segment.{SequentialSegment}
use mdswp.Recv.{RecvStorage, recv, pop, pop_acknowledge}
use mdswp.Recv.Loops.{IsFrom}
use mdswp.Recv.Track.{Tracks}

-- A storage with all that has been popped from it.
pub record Receiver : Type 0 where
  pub storage : RecvStorage
  pub output : List SequentialSegment

abbrev pub received : Receiver → List SequentialSegment
received a = a.output ++ a.storage.pop_queue

module _ (start : ℕ) where
  -- The position at which the window stands, and that of the lower bound.
  abbrev pub window_position : Receiver → ℕ
  window_position a = start + length (received a)

  abbrev pub lower_position : Receiver → ℕ
  lower_position a = window_position a - wrapping_sub a.storage.window a.storage.lower_bound

module _ (f : ℕ → SequentialSegment) (start : ℕ) where
  -- One call on the receiving side. A segment of position `i` may arrive late, twice or out of
  -- order, as long as it is not from before the lower bound.
  pub data Step (a b : Receiver) : Type 0 where
    arrives :
        (i : ℕ) (r : IoResult (Unit {0}))
        → lower_position start a ≤ i
        → i < lower_position start a + 256
        → recv a.storage (i % 256) (f i) ≡ done (r, b.storage)
        → b.output ≡ a.output
        → Step a b
    pops :
        (v : SequentialSegment)
        → pop a.storage ≡ (some v, b.storage)
        → b.output ≡ a.output ++ v ∷ []
        → Step a b
    acknowledges :
        (now : ℕ) (n : Option ℕ)
        → pop_acknowledge a.storage now ≡ (n, b.storage)
        → b.output ≡ a.output
        → Step a b

  pub data Reach (a : Receiver) : Receiver → Type 0 where
    here : Reach a a
    next : {b c : Receiver} → Reach a b → Step b c → Reach a c

-- What the sender put at position `i`.
abbrev pub Sent : (ℕ → SequentialSegment) → ℕ → SequentialSegment → Type 0
Sent f i v = v ≡ f i

-- What `P` allows at a position is what was sent there.
abbrev pub Means : (ℕ → SequentialSegment → Type 0) → (ℕ → SequentialSegment) → Type 0
Means P f = (i : ℕ) (v : SequentialSegment) → P i v → v ≡ f i

pub positions-IsFrom :
    (P : ℕ → SequentialSegment → Type 0) (f : ℕ → SequentialSegment) (k : ℕ)
    (vs : List SequentialSegment)
    → Means P f
    → IsFrom P k vs
    → vs ≡ positions f k (length vs)
positions-IsFrom P f k [] means h = refl
positions-IsFrom P f k (v ∷ vs) means h =
    cc (means k v h.0, positions-IsFrom P f (suc k) vs means h.1)

-- The receiver has got an initial part of what was sent, in order, and its storage is on track.
pub record InOrder (P : ℕ → SequentialSegment → Type 0) (f : ℕ → SequentialSegment) (start : ℕ)
    (a : Receiver) : Type 0 where
  pub lo : ℕ
  pub tracks : Tracks P lo (start + length (received a)) a.storage
  pub each : IsFrom P start (received a)
  pub order : received a ≡ positions f start (length (received a))

pub IsFrom-append :
    (P : ℕ → SequentialSegment → Type 0) (k : ℕ) (vs us : List SequentialSegment)
    → IsFrom P k vs
    → IsFrom P (k + length vs) us
    → IsFrom P k (vs ++ us)
IsFrom-append P k [] us h g = let at : k + 0 ≡ k = omega arith in subst (λ j. IsFrom P j us) at g
IsFrom-append P k (v ∷ vs) us h g =
    let at : k + suc (length vs) ≡ suc k + length vs = omega arith in
    (h.0, IsFrom-append P (suc k) vs us h.1 (subst (λ j. IsFrom P j us) at g))

pub lower_of_Tracks :
    (P : ℕ → SequentialSegment → Type 0) (lo w : ℕ) (s : RecvStorage)
    → Tracks P lo w s
    → w - wrapping_sub s.window s.lower_bound ≡ lo
lower_of_Tracks P lo w s t = rw (t.window_at, t.lower_at) (omega (arith, t.ordered, t.within))

-- The bounds and the segments are all that `Tracks` reads.
pub Tracks-same :
    (P : ℕ → SequentialSegment → Type 0) (lo w : ℕ) {s s' : RecvStorage}
    → s'.segments ≡ s.segments
    → s'.window ≡ s.window
    → s'.lower_bound ≡ s.lower_bound
    → Tracks P lo w s
    → Tracks P lo w s'
Tracks-same P lo w segs win low t = record {
  window_at = win ∙ t.window_at;
  lower_at = low ∙ t.lower_at;
  ordered = t.ordered;
  within = t.within;
  present = rw segs t.present;
  ahead = rw segs t.ahead;
  vacant = rw segs t.vacant;
}

pub pop_lem :
    (s : RecvStorage) (v : SequentialSegment) {s' : RecvStorage}
    → pop s ≡ (some v, s')
    → (s.pop_queue ≡ v ∷ s'.pop_queue)
      × (s'.segments ≡ s.segments)
      × (s'.window ≡ s.window)
      × (s'.lower_bound ≡ s.lower_bound)
unfolding pop
pop_lem s v h = ground arith

pub pop_acknowledge_same :
    (s : RecvStorage) (now : ℕ) (n : Option ℕ) {s' : RecvStorage}
    → pop_acknowledge s now ≡ (n, s')
    → (s'.pop_queue ≡ s.pop_queue)
      × (s'.segments ≡ s.segments)
      × (s'.window ≡ s.window)
      × (s'.lower_bound ≡ s.lower_bound)
unfolding pop_acknowledge
pop_acknowledge_same s now n h = ground arith
