-- ===== src/Send/Push.antt =====
-- stream/send.rs: `push`, and the question whether a FINISH was pushed last.
use mathlib.Core.List.{Mem}
use mathlib.Core.List.Perm
use mdswp.Prelude.{
  ℕ, zero, suc, ◌+◌, ◌-◌, ◌%◌, ◌<◌, ◌≡◌, refl, ◌∙◌, ap, ap₂, sym, ◌≢◌, inl, inr, Bool, true, false,
  ◌&&◌, List, [], ◌∷◌, ◌++◌, some, arith, length, length-append, positions, positions-append,
  cons_tail, if◌then◌else◌, Bool-cases, ltb, lt→ltb,
}
use mdswp.Util.{wrapping_sub, done, ok, err, conn_write_finished}
use mdswp.Segment.{SequentialSegment, accept, finish, payload, seg_eq}
use mdswp.Send.{
  SendStorage, null, last, is_empty, push, push_checked, find_sent, finished_unchecked,
}
use mdswp.Send.Positions.{mem-span, find_sent-Matches}
use mdswp.Send.Track.{Outstanding, length-queue_sent}

last-positions :
    (f : ℕ → SequentialSegment) (k n : ℕ) (v : SequentialSegment) (vs : List SequentialSegment)
    → v ∷ vs ≡ positions f k (suc n)
    → last v vs ≡ f (k + n)
last-positions f k zero v [] e = let at : k ≡ k + 0 = omega arith in cc at
last-positions f k zero v (u ∷ us) e = cc
last-positions f k (suc n) v [] e = cc
last-positions f k (suc n) v (u ∷ us) e =
    let at : suc k + n ≡ k + suc n = omega arith in
    last-positions f (suc k) n u us (cons_tail e) ∙ ap f at

null_of_length {ℓ} : {A : Type ℓ} (xs : List A) → length xs ≡ 0 → null xs ≡ true
null_of_length [] h = refl
null_of_length (x ∷ xs) h = absurd (omega arith)

unfinished_empty :
    (s : SendStorage)
    → length s.queue_sent ≡ 0
    → s.queue_unsent ≡ []
    → finished_unchecked s ≡ done false
unfolding finished_unchecked is_empty
unfinished_empty s h q = ground (arith, null_of_length s.queue_sent h)

finished_unsent :
    (s : SendStorage) (v : SequentialSegment) (vs : List SequentialSegment)
    → s.queue_unsent ≡ v ∷ vs
    → finished_unchecked s ≡ done (seg_eq (last v vs) finish)
unfolding finished_unchecked is_empty
finished_unsent s v vs q = ground arith

finished_sent :
    (s : SendStorage) (u : SequentialSegment)
    → 0 < length s.queue_sent
    → s.queue_unsent ≡ []
    → find_sent (wrapping_sub s.next_unsent 1) s.queue_sent ≡ some u
    → finished_unchecked s ≡ done (seg_eq u finish)
unfolding finished_unchecked is_empty
finished_sent s u h q e = ground arith

-- Whether anything is in the storage, and what was pushed last is a FINISH.
abbrev pub finish_pushed : (ℕ → SequentialSegment) → ℕ → ℕ → SendStorage → Bool
finish_pushed f lo hi s =
    let end = hi + length s.queue_unsent in ltb lo end && seg_eq (f (end - 1)) finish

module _ (f : ℕ → SequentialSegment) (lo hi : ℕ) (s : SendStorage) (v : Outstanding f lo hi s) where
  size : length s.queue_sent ≡ hi - lo
  size = length-queue_sent f lo hi s v

  sent_last : lo < hi → find_sent (wrapping_sub s.next_unsent 1) s.queue_sent ≡ some (f (hi - 1))
  sent_last h =
      let number : wrapping_sub s.next_unsent 1 ≡ (hi - 1) % 256 = omega (arith, v.next_at) in
      let is_there : Mem (hi - 1) v.at =
        Perm.subset (Perm.symm v.each_once) (hi - 1)
          (mem-span (hi - 1) lo (hi - lo) (omega arith) (omega arith)) in
      rw number (
        find_sent-Matches f lo hi (hi - 1) (omega (arith, v.few)) (omega arith, omega arith) v.at
          s.queue_sent v.between v.matches is_there)

  answer :
      (end : ℕ)
      → hi + length s.queue_unsent ≡ end
      → finish_pushed f lo hi s ≡ ltb lo end && seg_eq (f (end - 1)) finish
  answer end e = rw e

  -- The search for the last number that was sent finds it, so `unwrap` does not panic, and the
  -- answer is whether the last pushed segment is a FINISH.
  pub finished_unchecked_lem : finished_unchecked s ≡ done (finish_pushed f lo hi s)
  finished_unchecked_lem = by_queue s.queue_unsent refl
    where
      by_queue :
          (us : List SequentialSegment)
          → s.queue_unsent ≡ us
          → finished_unchecked s ≡ done (finish_pushed f lo hi s)
      by_queue [] q = elim (Bool-cases (ltb lo hi)) [
        | inl some_sent ↦
            finished_sent s (f (hi - 1)) (ground (arith, size)) q (sent_last (ground arith))
            ∙ ap done (sym (answer hi (rw q (omega arith)) ∙ rw some_sent))
        | inr none_sent ↦
            unfinished_empty s (ground (arith, size)) q
            ∙ ap done (sym (answer hi (rw q (omega arith)) ∙ rw none_sent))
      ]
      by_queue (u ∷ us) q =
          let ends =
            last-positions f hi (length us) u us
              (sym q ∙ v.waiting ∙ ap (λ l. positions f hi (length l)) q) in
          let more : ltb lo (suc (hi + length us)) ≡ true =
            lt→ltb lo (suc (hi + length us)) (omega (arith, v.ordered)) in
          let before : suc (hi + length us) - 1 ≡ hi + length us = omega arith in
          finished_unsent s u us q
          ∙ ap done
              (sym (answer (suc (hi + length us)) (rw q (omega arith)) ∙ rw (more, before, ends)))

  pub push_lem :
      (u : SequentialSegment)
      → u ≢ accept
      → push s u ≡ (
          if finish_pushed f lo hi s
          then done (err conn_write_finished, s)
          else done (ok tt, record s { queue_unsent = s.queue_unsent ++ u ∷ [] }))
  unfolding push push_checked
  push_lem accept ne = absurd (ne refl)
  push_lem finish ne = ground (arith, finished_unchecked_lem)
  push_lem (payload d) ne = ground (arith, finished_unchecked_lem)

  pub push-Outstanding :
      (u : SequentialSegment)
      → u ≡ f (hi + length s.queue_unsent)
      → Outstanding f lo hi (record s { queue_unsent = s.queue_unsent ++ u ∷ [] })
  push-Outstanding u e = record {
    at = v.at;
    ordered = v.ordered;
    few = v.few;
    next_at = v.next_at;
    each_once = v.each_once;
    between = v.between;
    matches = v.matches;
    waiting =
        ap₂ (λ q w. q ++ w ∷ []) v.waiting e
        ∙ positions-append f hi (length s.queue_unsent) 1
        ∙ ap (positions f hi) (sym (length-append s.queue_unsent (u ∷ [])));
  }
