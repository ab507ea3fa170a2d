-- ===== src/Link/Drawn.antt =====
-- stream/send.rs: how many segments wait after `pop`, beside the number that is next.
use mdswp.Prelude.{
  ℕ, suc, ◌≡◌, refl, ◌∙◌, ap, sym, ◌⊎◌, inl, inr, Option, List, [], ◌∷◌, length, arith, ltb,
  Bool-cases, Option-cases,
}
use mdswp.Util.{done, wrapping_add}
use mdswp.Segment.{SequentialSegment}
use mdswp.Send.{SendStorage, pop, try_pop_sent, try_pop_unsent}
use mdswp.Send.Window.{unsent_next, pop_next, pop_due}

-- All as before, or one less, under the next number.
abbrev pub Drawn : SendStorage → SendStorage → Type 0
Drawn s s' =
    ((s'.next_unsent ≡ s.next_unsent) × (s'.queue_unsent ≡ s.queue_unsent))
    ⊎ ((s'.next_unsent ≡ wrapping_add s.next_unsent 1)
        × (length s.queue_unsent ≡ suc (length s'.queue_unsent)))

module _ (s s' : SendStorage) (now : ℕ) (r : Option (ℕ × SequentialSegment)) where
  draws_from :
      try_pop_unsent s now ≡ done (r, s')
      → (us : List SequentialSegment) → s.queue_unsent ≡ us
      → Drawn s s'
  unfolding try_pop_unsent
  draws_from h [] q = inl (ground arith, ground arith)
  draws_from h (u ∷ us) q = elim (Bool-cases (ltb (length s.queue_sent) 10)) [
    | inl room ↦
        let known = unsent_next s now u us (ground arith) q in
        inr (cc, ap length q ∙ ap suc (cc (h, known)))
    | inr full ↦ inl (ground arith, ground arith)
  ]

same_unsent :
    (s : SendStorage) (now : ℕ)
    → ((try_pop_sent s now).1.next_unsent ≡ s.next_unsent)
      × ((try_pop_sent s now).1.queue_unsent ≡ s.queue_unsent)
unfolding try_pop_sent
same_unsent s now = (ground arith, ground arith)

pub pop_draws :
    (s s' : SendStorage) (now : ℕ) (r : Option (ℕ × SequentialSegment))
    → pop s now ≡ done (r, s')
    → Drawn s s'
pop_draws s s' now r h =
    let t = (try_pop_sent s now).1 in
    let (number, queue) = same_unsent s now in
    elim (Option-cases (try_pop_sent s now).0) [
      | inl nothing ↦
          let ran = pop_next s t now (ap (λ q. (q, t)) nothing) in
          elim (draws_from t s' now r (sym ran ∙ h) t.queue_unsent refl) [
            | inl (a, b) ↦ inl (a ∙ number, b ∙ queue)
            | inr (a, b) ↦ inr (a ∙ ap (λ k. wrapping_add k 1) number, sym (ap length queue) ∙ b)
          ]
      | inr (p, found) ↦
          let ran = pop_due s t now p (ap (λ q. (q, t)) found) in
          let same : t ≡ s' = cc (ran, h) in
          inl (
            ap (λ q. q.next_unsent) (sym same) ∙ number,
            ap (λ q. q.queue_unsent) (sym same) ∙ queue,
          )
    ]
