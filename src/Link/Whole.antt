-- ===== src/Link/Whole.antt =====
-- stream/send.rs and stream/recv.rs together: what is delivered was pushed, over any run.
use mdswp.Prelude.{
  ℕ, zero, suc, ◌+◌, ◌-◌, ◌≤◌, ◌<◌, ◌≡◌, refl, ◌∙◌, ap, ap₂, sym, none, List, [], ◌∷◌, ◌++◌, length,
  arith, positions, positions-append, positions_prefix, cons_tail, if◌then◌else◌, ◌==◌, ==_true,
  ==_false,
}
use mdswp.Segment.{SequentialSegment, accept}
use mdswp.Recv.Order.{received, window_position}
use mdswp.Link.{
  Sides, Move, pushes, sends, idles, arrives, delivers, answers, is_quiet, acknowledges, Runs, here,
  next,
}
use mdswp.Link.Joined.{Joined, IsFrom-below}
use mdswp.Link.Kept.{pushes-Joined, acknowledges-Joined, sends-Joined, idles-Joined}
use mdswp.Link.Delivery.{arrives-Joined, delivers-Joined, asked-Joined, answers-Joined}

-- The segment at position `i` of those pushed from position `k` on.
abbrev pub pushed_at : ℕ → List SequentialSegment → ℕ → SequentialSegment
pushed_at k [] i = accept
pushed_at k (v ∷ vs) i = if i == k then v else pushed_at (suc k) vs i

pub pushed_before :
    (k : ℕ) (vs : List SequentialSegment) (i : ℕ) → i < k → pushed_at k vs i ≡ accept
pushed_before k [] i h = refl
pushed_before k (v ∷ vs) i h =
    rw (==_false i k (λ e. omega arith)) (pushed_before (suc k) vs i (omega arith))

positions-ext :
    (f g : ℕ → SequentialSegment) (k n : ℕ)
    → ((i : ℕ) → k ≤ i → f i ≡ g i)
    → positions f k n ≡ positions g k n
positions-ext f g k zero h = refl
positions-ext f g k (suc n) h =
    ap₂ (λ v vs. v ∷ vs) (h k (omega arith))
      (positions-ext f g (suc k) n (λ i a. h i (omega arith)))

pub positions-pushed_at :
    (k : ℕ) (vs : List SequentialSegment) → vs ≡ positions (pushed_at k vs) k (length vs)
positions-pushed_at k [] = refl
positions-pushed_at k (v ∷ vs) =
    ap₂ (λ u us. u ∷ us) (rw (==_true k k refl))
      (positions-pushed_at (suc k) vs
        ∙ positions-ext (pushed_at (suc k) vs) (pushed_at k (v ∷ vs)) (suc k) (length vs)
            (λ i a. rw (==_false i k (λ e. omega arith))))

last_position :
    (f : ℕ → SequentialSegment) (k n : ℕ) (vs : List SequentialSegment) (u : SequentialSegment)
    → vs ++ u ∷ [] ≡ positions f k n
    → u ≡ f (k + length vs)
last_position f k zero [] u e = cc
last_position f k zero (v ∷ vs) u e = cc
last_position f k (suc n) [] u e = let at : k + 0 ≡ k = omega arith in rw at (cc)
last_position f k (suc n) (v ∷ vs) u e =
    let at : k + suc (length vs) ≡ suc k + length vs = omega arith in
    rw at (last_position f (suc k) n vs u (cons_tail e))

-- `f` says what has been pushed.
abbrev pub Says : (ℕ → SequentialSegment) → ℕ → Sides → Type 0
Says f start a = a.pushed ≡ positions f start (length a.pushed)

module _ (f : ℕ → SequentialSegment) (start : ℕ) where
  pub Says-before : {a b : Sides} → Move start a b → Says f start b → Says f start a
  Says-before {a} (pushes u s' ne ran) e = positions_prefix f start _ a.pushed (u ∷ []) e
  Says-before (sends now i n u s' ran at x y) e = e
  Says-before (idles now s' ran) e = e
  Says-before (arrives i u r st place x y ran) e = e
  Says-before (delivers u st ran) e = e
  Says-before (answers now i n st ran at) e = e
  Says-before (is_quiet now st ran) e = e
  Says-before (acknowledges i n r s' place x ran) e = e

  Move-Joined :
      {a b : Sides} → Joined f start a → Move start a b → Says f start b → Joined f start b
  Move-Joined {a} v (pushes u s' ne ran) e =
      pushes-Joined f start v u s' ne ran (last_position f start _ a.pushed u e)
  Move-Joined v (sends now i n u s' ran at x y) e = sends-Joined f start v now i n u s' ran at x y
  Move-Joined v (idles now s' ran) e = idles-Joined f start v now s' ran
  Move-Joined v (arrives i u r st place x y ran) e = arrives-Joined f start v i u r st place x y ran
  Move-Joined v (delivers u st ran) e = delivers-Joined f start v u st ran
  Move-Joined v (answers now i n st ran at) e = answers-Joined f start v now i n st ran at
  Move-Joined {a} v (is_quiet now st ran) e =
      asked-Joined f start v now none st a.acks ran v.acks_given
  Move-Joined v (acknowledges i n r s' place x ran) e =
      acknowledges-Joined f start v i n r s' place x ran

  pub Runs-Says : {a b : Sides} → Runs start a b → Says f start b → Says f start a
  Runs-Says here e = e
  Runs-Says (next r m) e = Runs-Says r (Says-before m e)

  pub Runs-Joined :
      {a b : Sides} → Joined f start a → Runs start a b → Says f start b → Joined f start b
  Runs-Joined v here e = v
  Runs-Joined v (next r m) e = Move-Joined (Runs-Joined v r (Says-before m e)) m e

-- The part of what was pushed that has been received.
pub received_first :
    (f : ℕ → SequentialSegment) (start : ℕ) (vs us : List SequentialSegment)
    → vs ≡ positions f start (length vs)
    → us ≡ positions f start (length us)
    → length us ≤ length vs
    → vs ≡ us ++ positions f (start + length us) (length vs - length us)
received_first f start vs us e g h =
    let total : length us + (length vs - length us) ≡ length vs = omega arith in
    e
    ∙ ap (positions f start) (sym total)
    ∙ sym (positions-append f start (length us) (length vs - length us))
    ∙ ap (λ q. q ++ positions f (start + length us) (length vs - length us)) (sym g)

-- Both sides agree at the beginning, whatever will be pushed.
abbrev pub Begins : ℕ → Sides → Type 0
Begins start a =
    (f : ℕ → SequentialSegment)
    → ((i : ℕ) → i < start → f i ≡ accept)
    → a.pushed ≡ positions f start (length a.pushed)
    → Joined f start a

-- What the two sides agree on when `pushed` was pushed.
pub halves_agree :
    (start : ℕ) (a b : Sides)
    → Begins start a
    → Runs start a b
    → Joined (pushed_at start b.pushed) start b
halves_agree start a b begins r =
    let f = pushed_at start b.pushed in
    let says = positions-pushed_at start b.pushed in
    Runs-Joined f start
      (begins f (λ i h. pushed_before start b.pushed i h) (Runs-Says f start r says)) r says

-- From a beginning on which both sides agree.
pub delivers_from :
    (start : ℕ) (a b : Sides)
    → Begins start a
    → Runs start a b
    → (rest : List SequentialSegment) × (b.pushed
        ≡ (b.receiver.output ++ b.receiver.storage.pop_queue) ++ rest)
delivers_from start a b begins r =
    let f = pushed_at start b.pushed in
    let says = positions-pushed_at start b.pushed in
    let v = halves_agree start a b begins r in
    let within : window_position start b.receiver ≤ v.hi =
      IsFrom-below f v.hi start (received b.receiver) v.begun v.in_order.each in
    (
      _,
      received_first f start b.pushed (received b.receiver) says v.in_order.order
          (omega (arith, v.counted)),
    )
