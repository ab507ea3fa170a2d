-- ===== src/Recv/Loops.antt =====
-- stream/recv.rs: what the three loops of `__try_slide_window` do, in terms of unbounded positions.
-- Position `i` of the peer's sequence carries the number `i % 256`.
use mdswp.Prelude.{
  ℕ, zero, suc, ◌+◌, ◌%◌, ◌≤◌, ◌<◌, ◌≡◌, refl, ◌∙◌, ap, sym, ◌≢◌, inl, inr, none, some, List, [],
  ◌∷◌, ◌++◌, append_assoc, append-nil, arith, length, ◌==◌, ==_iff, ==_true, ==_false, mod_ne,
  Bool-cases, Option-cases,
}
use mdswp.Util.{done, wrapping_add}
use mdswp.Segment.{SequentialSegment}
use mdswp.Recv.{Segments, remove, find_window, queue_passed, remove_old}

pub wrapping_add-suc : (i : ℕ) → wrapping_add (i % 256) 1 ≡ suc i % 256
wrapping_add-suc i = omega arith

-- Something is stored for position `i`.
abbrev pub IsStored : Segments → ℕ → Type 0
IsStored m i = (v : SequentialSegment) × (m (i % 256) ≡ some v)

-- A gap ahead within the fuel ends the search at the first gap.
pub find_window_lem :
    (fuel : ℕ) (m : Segments) (k gap : ℕ)
    → k ≤ gap
    → gap < k + fuel
    → m (gap % 256) ≡ none
    → (w : ℕ) × (k ≤ w)
      × (w ≤ gap)
      × (find_window fuel m (k % 256) ≡ done (w % 256))
      × (m (w % 256) ≡ none)
      × ((i : ℕ) → k ≤ i → i < w → IsStored m i)
unfolding find_window
find_window_lem zero m k gap h f e = absurd (omega arith)
find_window_lem (suc fuel) m k gap h f e = elim (Option-cases (m (k % 256))) [
  | inl free ↦ (k, omega arith, h, rw (free, find_window), free, λ i a b. absurd (omega arith))
  | inr (v, here) ↦
      let ne : k ≢ gap = λ q. cc (ap (λ j. m (j % 256)) q) in
      let (w, lo, hi, found, free, all) =
        find_window_lem fuel m (suc k) gap (omega arith) (omega arith) e in
      (
        w,
        omega arith,
        hi,
        rw (here, find_window, wrapping_add-suc k) found,
        free,
        λ i a b. elim (Bool-cases (i == k)) [
          | inl q ↦ (v, rw ((==_iff i k).0 q) here)
          | inr q ↦ all i (ground arith) b
        ],
      )
]

-- A list that holds, from position `k` on, what `P` says of each position.
abbrev pub IsFrom : (ℕ → SequentialSegment → Type 0) → ℕ → List SequentialSegment → Type 0
IsFrom P k [] = Unit
IsFrom P k (v ∷ vs) = P k v × IsFrom P (suc k) vs

module _ (P : ℕ → SequentialSegment → Type 0) where
  -- What is stored for position `i` fits `P`.
  abbrev pub Holds : Segments → ℕ → Type 0
  Holds m i = (v : SequentialSegment) × (m (i % 256) ≡ some v) × P i v

  pub queue_passed_lem :
      (fuel : ℕ) (m : Segments) (k w : ℕ) (queue : List SequentialSegment)
      → k ≤ w
      → w < k + fuel
      → w < k + 256
      → ((i : ℕ) → k ≤ i → i < w → Holds m i)
      → (passed : List SequentialSegment) × (queue_passed fuel m (k % 256) (w % 256) queue
          ≡ done (queue ++ passed))
        × IsFrom P k passed
        × (k + length passed ≡ w)
  unfolding queue_passed
  queue_passed_lem zero m k w queue h f b all = absurd (omega arith)
  queue_passed_lem (suc fuel) m k w queue h f b all = elim (Bool-cases (k == w)) [
    | inl q ↦
        let e = (==_iff k w).0 q in
        (
          [],
          rw (==_true (k % 256) (w % 256) (ap (λ i. i % 256) e), queue_passed, append-nil),
          tt,
          omega arith,
        )
    | inr q ↦
        let lt : k < w = ground arith in
        let (v, here, p) = all k (omega arith) lt in
        let (vs, ran, run, count) =
          queue_passed_lem fuel m (suc k) w (queue ++ v ∷ []) lt (omega arith) (omega arith)
            (λ i a c. all i (omega arith) c) in
        (
          v ∷ vs,
          rw (
            ==_false (k % 256) (w % 256) (mod_ne k w lt b),
            queue_passed,
            here,
            wrapping_add-suc k,
            ran,
            append_assoc,
          ),
          (p, run),
          omega arith,
        )
  ]

pub remove_old_lem :
    (fuel : ℕ) (m : Segments) (k w : ℕ)
    → k ≤ w
    → w < k + fuel
    → w < k + 256
    → ((i : ℕ) → k ≤ i → i < w → IsStored m i)
    → (m' : Segments) × (remove_old fuel m (k % 256) (w % 256) ≡ done m')
      × ((i : ℕ) → w ≤ i → i < k + 256 → m' (i % 256) ≡ m (i % 256))
      × ((i : ℕ) → k ≤ i → i < w → m' (i % 256) ≡ none)
unfolding remove_old
remove_old_lem zero m k w h f b all = absurd (omega arith)
remove_old_lem (suc fuel) m k w h f b all = elim (Bool-cases (k == w)) [
  | inl q ↦
      let e = (==_iff k w).0 q in
      (
        m,
        rw (==_true (k % 256) (w % 256) (ap (λ i. i % 256) e), remove_old),
        λ i a c. refl,
        λ i a c. absurd (omega arith),
      )
  | inr q ↦
      let lt : k < w = ground arith in
      let (v, here) = all k (omega arith) lt in
      let rest : (i : ℕ) → k < i → i < k + 256 → remove m (k % 256) (i % 256) ≡ m (i % 256) =
        λ i a c. rw (==_false (i % 256) (k % 256) (λ e. mod_ne k i a c (sym e))) in
      let (m', ran, kept, dropped) =
        remove_old_lem fuel (remove m (k % 256)) (suc k) w lt (omega arith) (omega arith) (λ i a c.
          let (u, e) = all i (omega arith) c in (u, rest i (omega arith) (omega arith) ∙ e)) in
      let first : m' (k % 256) ≡ none =
        ap m' (omega arith)
        ∙ kept (k + 256) (omega arith) (omega arith)
        ∙ rw (==_true ((k + 256) % 256) (k % 256) (omega arith)) in
      (
        m',
        rw (
          ==_false (k % 256) (w % 256) (mod_ne k w lt b),
          remove_old,
          here,
          wrapping_add-suc k,
          ran,
        ),
        λ i a c. kept i a (omega arith) ∙ rest i (omega arith) c,
        λ i a c. elim (Bool-cases (i == k)) [
          | inl s ↦ rw ((==_iff i k).0 s) first
          | inr s ↦ dropped i (ground arith) c
        ],
      )
]
