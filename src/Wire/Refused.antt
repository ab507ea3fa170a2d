-- ===== src/Wire/Refused.antt =====
-- stream/inner.rs: `push` refuses a segment only behind a FINISH, when both sides have agreed from the
-- beginning.
use mdswp.Prelude.{
  ℕ, suc, ◌+◌, ◌-◌, ◌≡◌, ◌≢◌, refl, ◌∙◌, sym, ap, subst, inl, inr, Bool, true, false, ◌&&◌, List,
  [], ◌∷◌, ◌++◌, arith, if◌then◌else◌, ◌==◌, Bool-cases, length, ltb,
}
use mdswp.Util.{IoError, ok, err, done, conn_write_finished}
use mdswp.Segment.{SequentialSegment, accept, finish, payload, seg_eq}
use mdswp.Send.{SendStorage, push}
use mdswp.Send.Push.{finish_pushed, push_lem}
use mdswp.Stream.Reading.{has_finish}
use mdswp.Link.{Sides, Runs}
use mdswp.Link.Whole.{pushed_at, Begins, halves_agree}

pub and_second : (a b : Bool) → a && b ≡ true → b ≡ true
and_second true b e = e
and_second false b e = cc

is_finish : (v : SequentialSegment) → seg_eq v finish ≡ true → v ≡ finish
unfolding seg_eq
is_finish accept e = cc
is_finish finish e = refl
is_finish (payload d) e = cc

has_finish-cons :
    (v : SequentialSegment) (vs : List SequentialSegment)
    → has_finish vs ≡ true
    → has_finish (v ∷ vs) ≡ true
has_finish-cons accept vs e = e
has_finish-cons finish vs e = refl
has_finish-cons (payload d) vs e = e

pushed_at-has_finish :
    (k : ℕ) (vs : List SequentialSegment) (i : ℕ) → pushed_at k vs i ≡ finish → has_finish vs ≡ true
pushed_at-has_finish k [] i e = cc
pushed_at-has_finish k (v ∷ vs) i e = elim (Bool-cases (i == k)) [
  | inl same ↦
      let at : v ≡ finish = ground arith in subst (λ q. has_finish (q ∷ vs) ≡ true) (sym at) refl
  | inr other ↦
      let at : pushed_at (suc k) vs i ≡ finish = ground arith in
      has_finish-cons v vs (pushed_at-has_finish (suc k) vs i at)
]

-- The last position is that of a FINISH.
last_finish :
    (f : ℕ → SequentialSegment) (lo hi : ℕ) (s : SendStorage)
    → finish_pushed f lo hi s ≡ true
    → f (hi + length s.queue_unsent - 1) ≡ finish
last_finish f lo hi s e =
    is_finish (f (hi + length s.queue_unsent - 1))
      (and_second (ltb lo (hi + length s.queue_unsent)) _ e)

accepted :
    (s : SendStorage) (u : SequentialSegment) (e : IoError) (st t : SendStorage)
    → push s u ≡ done (err e, st)
    → push s u ≢ done (ok tt, t)
accepted s u e st t ran other = cc

-- `push` is refused only if a FINISH has been pushed.
pub refused-has_finish :
    (start : ℕ) (a b : Sides) (u : SequentialSegment) (e : IoError) (st : SendStorage)
    → Begins start a
    → Runs start a b
    → u ≢ accept
    → push b.sender u ≡ done (err e, st)
    → has_finish b.pushed ≡ true
refused-has_finish start a b u e st begins r ne ran =
    let v = halves_agree start a b begins r in
    let f = pushed_at start b.pushed in
    let answer = push_lem f v.lo v.hi b.sender v.outstanding u ne in
    elim (Bool-cases (finish_pushed f v.lo v.hi b.sender)) [
      | inl refused ↦
          pushed_at-has_finish start b.pushed _ (last_finish f v.lo v.hi b.sender refused)
      | inr took ↦ absurd (
          accepted b.sender u e st _ ran (
            answer
            ∙ ap
                (λ q.
                  if q
                  then done (err conn_write_finished, b.sender)
                  else done
                      (ok tt, record b.sender { queue_unsent = b.sender.queue_unsent ++ u ∷ [] }))
                took))
    ]
