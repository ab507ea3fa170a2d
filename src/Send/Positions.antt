-- ===== src/Send/Positions.antt =====
-- stream/send.rs: lists of unbounded positions, as a permutation of a span of them, and the sent
-- segments that stand at them. Position `i` of the sequence carries the number `i % 256`.
use mathlib.Core.List.{
  Mem, Permᴰ, Perm, filter, mem-cons, mem-cons_self, mem-cons_of_mem, not-mem-nil, Mem-prop,
}
use mathlib.Core.Logic.{∥∥₁_elim, if_pos, if_neg}
use mathlib.Core.Logic.Or
use native.Mathlib.Nat.{ℕ_set}
use native.Mathlib.Decide.{dec_lt}
use mdswp.Prelude.{
  ℕ, zero, suc, ◌+◌, ◌-◌, ◌%◌, ◌≤◌, ◌<◌, ◌≡◌, refl, ◌∙◌, ap, sym, ◌≢◌, inl, inr, true, false, List,
  [], ◌∷◌, ◌++◌, some, arith, length, All, positions, Bool-cases, ltb, leb, ◌==◌, ==_iff, ==_false,
  lt→ltb, le→ltb,
}
use mdswp.Util.{wrapping_sub}
use mdswp.Segment.{SequentialSegment}
use mdswp.Send.{SentSegment, acknowledged, find_sent}
use mdswp.Send.Loop.{unacknowledged}

-- The positions from `k` on.
abbrev pub span : ℕ → ℕ → List ℕ
span = positions (λ i. i)

Permᴰ-length {ℓ} : {A : Type ℓ} {xs ys : List A} → Permᴰ xs ys → length xs ≡ length ys
Permᴰ-length Permᴰ.nil = refl
Permᴰ-length (Permᴰ.cons e d) = ap suc (Permᴰ-length d)
Permᴰ-length (Permᴰ.swap a b) = refl
Permᴰ-length (Permᴰ.trans d e) = Permᴰ-length d ∙ Permᴰ-length e

pub Perm-length {ℓ} : {A : Type ℓ} {xs ys : List A} → Perm xs ys → length xs ≡ length ys
Perm-length {xs = xs} {ys = ys} p = ∥∥₁_elim p (ℕ_set (length xs) (length ys)) Permᴰ-length

pub mem-span : (i k n : ℕ) → k ≤ i → i < k + n → Mem i (span k n)
mem-span i k zero a b = absurd (omega arith)
mem-span i k (suc n) a b = elim (Bool-cases (i == k)) [
  | inl e ↦ rw ((==_iff i k).0 e) mem-cons_self
  | inr e ↦ mem-cons_of_mem k (mem-span i (suc k) n (ground arith) (omega arith))
]

filter_above : (a k n : ℕ) → a < k → filter (dec_lt a) (span k n) ≡ span k n
filter_above a k zero h = refl
filter_above a k (suc n) h =
    rw (if_pos (dec_lt a k) h) (ap (◌∷◌ k) (filter_above a (suc k) n (omega arith)))

pub filter-span :
    (a k n : ℕ)
    → k ≤ suc a
    → suc a ≤ k + n
    → filter (dec_lt a) (span k n) ≡ span (suc a) (k + n - suc a)
filter-span a k zero h g =
    let none_left : 0 ≡ k + 0 - suc a = omega arith in ap (span (suc a)) none_left
filter-span a k (suc n) h g = elim (Bool-cases (ltb a k)) [
  | inl e ↦
      let same : suc a ≡ k = ground arith in
      filter_above a k (suc n) (omega arith)
      ∙ rw same (let same_count : suc n ≡ k + suc n - k = omega arith in ap (span k) same_count)
  | inr e ↦ rw (if_neg (dec_lt a k) (ground arith)) (
      filter-span a (suc k) n (ground arith) (omega arith)
      ∙ (let same_count : suc k + n - suc a ≡ k + suc n - suc a = omega arith in
          ap (span (suc a)) same_count))
]

-- The segments of a queue stand at the given positions of the sequence `f`, one for one.
abbrev pub Matches : (ℕ → SequentialSegment) → List ℕ → List SentSegment → Type 0
Matches f [] [] = Unit
Matches f [] (e ∷ es) = ⊥
Matches f (i ∷ at) [] = ⊥
Matches f (i ∷ at) (e ∷ es) = (e.seq_num ≡ i % 256) × (e.segment ≡ f i) × Matches f at es

pub Matches-length :
    (f : ℕ → SequentialSegment) (at : List ℕ) (es : List SentSegment)
    → Matches f at es
    → length at ≡ length es
Matches-length f [] [] m = refl
Matches-length f [] (e ∷ es) m = absurd m
Matches-length f (i ∷ at) [] m = absurd m
Matches-length f (i ∷ at) (e ∷ es) m = ap suc (Matches-length f at es m.2)

pub Matches-append :
    (f : ℕ → SequentialSegment) (at at' : List ℕ) (es es' : List SentSegment)
    → Matches f at es
    → Matches f at' es'
    → Matches f (at ++ at') (es ++ es')
Matches-append f [] at' [] es' m m' = m'
Matches-append f [] at' (e ∷ es) es' m m' = absurd m
Matches-append f (i ∷ at) at' [] es' m m' = absurd m
Matches-append f (i ∷ at) at' (e ∷ es) es' m m' = (m.0, m.1, Matches-append f at at' es es' m.2 m')

abbrev pub Between : ℕ → ℕ → ℕ → Type 0
Between lo hi i = (lo ≤ i) × (i < hi)

acknowledged_iff :
    (lo hi a i : ℕ)
    → hi ≤ lo + 10
    → lo ≤ suc a
    → a < hi
    → lo ≤ i
    → i < hi
    → acknowledged (a % 256) (i % 256) ≡ leb i a
acknowledged_iff lo hi a i h x y p q = elim (Bool-cases (leb i a)) [
  | inl e ↦ rw e (lt→ltb _ _ (back e))
  | inr e ↦ rw e (le→ltb _ _ (ahead e))
]
  where
    back : leb i a ≡ true → wrapping_sub (a % 256) (i % 256) < 10
    back e = let le : i ≤ a = ground arith in omega arith

    ahead : leb i a ≡ false → 10 ≤ wrapping_sub (a % 256) (i % 256)
    ahead e = let lt : a < i = ground arith in omega arith

leb-false : (a i : ℕ) → a < i → leb i a ≡ false
leb-false a i p = ground arith

leb-true : (a i : ℕ) → ¬ (a < i) → leb i a ≡ true
leb-true a i p = ground arith

-- The filter of `acknowledge` keeps the positions above the acknowledged one.
pub Matches-unacknowledged :
    (f : ℕ → SequentialSegment) (lo hi a : ℕ)
    → hi ≤ lo + 10
    → lo ≤ suc a
    → a < hi
    → (at : List ℕ) (es : List SentSegment) → All (Between lo hi) at
    → Matches f at es
    → Matches f (filter (dec_lt a) at) (unacknowledged (a % 256) es)
      × All (Between (suc a) hi) (filter (dec_lt a) at)
Matches-unacknowledged f lo hi a h x y [] [] b m = (tt, tt)
Matches-unacknowledged f lo hi a h x y [] (e ∷ es) b m = absurd m
Matches-unacknowledged f lo hi a h x y (i ∷ at) [] b m = absurd m
Matches-unacknowledged f lo hi a h x y (i ∷ at) (e ∷ es) b m =
    let (m', b') = Matches-unacknowledged f lo hi a h x y at es b.1 m.2 in
    let test : acknowledged (a % 256) e.seq_num ≡ leb i a =
      ap (acknowledged (a % 256)) m.0 ∙ acknowledged_iff lo hi a i h x y b.0.0 b.0.1 in
    elim (dec_lt a i) [
      | yes p ↦
          rw (if_pos (dec_lt a i) p, test ∙ leb-false a i p) ((m.0, m.1, m'), ((p, b.0.1), b'))
      | no p ↦ rw (if_neg (dec_lt a i) p, test ∙ leb-true a i p) (m', b')
    ]

seq_ne :
    (lo hi i j n : ℕ)
    → hi ≤ lo + 256
    → Between lo hi i
    → Between lo hi j
    → n ≡ i % 256
    → i ≢ j
    → (n == j % 256) ≡ false
seq_ne lo hi i j n h b c e ne = ==_false n (j % 256) (omega arith)

-- The last number of a queue is found, with its segment.
pub find_sent-Matches :
    (f : ℕ → SequentialSegment) (lo hi j : ℕ)
    → hi ≤ lo + 256
    → Between lo hi j
    → (at : List ℕ) (es : List SentSegment) → All (Between lo hi) at
    → Matches f at es
    → Mem j at
    → find_sent (j % 256) es ≡ some (f j)
unfolding find_sent
find_sent-Matches f lo hi j h c [] [] b m mem = absurd (not-mem-nil mem)
find_sent-Matches f lo hi j h c [] (e ∷ es) b m mem = absurd m
find_sent-Matches f lo hi j h c (i ∷ at) [] b m mem = absurd m
find_sent-Matches f lo hi j h c (i ∷ at) (e ∷ es) b m mem = elim (Bool-cases (i == j)) [
  | inl q ↦
      let same = (==_iff i j).0 q in
      let hit : (e.seq_num == j % 256) ≡ true =
        (==_iff e.seq_num (j % 256)).1 (m.0 ∙ ap (λ k. k % 256) same) in
      rw hit (ap some (m.1 ∙ ap f same))
  | inr q ↦
      let ne : i ≢ j = λ e. cc ((==_iff i j).1 e) in
      let miss : (e.seq_num == j % 256) ≡ false = seq_ne lo hi i j e.seq_num h b.0 c m.0 ne in
      let later : Mem j at =
        Or.elim Mem-prop (mem-cons.0 mem) (λ e. absurd (ne (sym e))) (λ k. k) in
      rw miss (find_sent-Matches f lo hi j h c at es b.1 m.2 later)
]
