-- ===== src/Send/Unsent.antt =====
-- stream/send.rs: the two constructors, and an acknowledgement of the number that is next to be sent.
use mathlib.Core.List.{Mem, Perm, mem-cons, not-mem-nil, Mem-prop}
use mathlib.Core.List.Perm
use mathlib.Core.Logic.Or
use mdswp.Prelude.{
  ℕ, ◌+◌, ◌-◌, ◌%◌, ◌≤◌, ◌<◌, ◌≡◌, refl, ◌∙◌, ap, sym, ◌≢◌, inl, inr, true, false, List, [], ◌∷◌,
  none, arith, All, Bool-cases, ltb, ◌==◌, ==_false, lt→ltb, le→ltb,
}
use mdswp.Util.{wrapping_sub, done, panic, ok}
use mdswp.Segment.{SequentialSegment, accept, finish, payload}
use mdswp.Send.{
  SentSegment, SendStorage, acknowledged, null, is_empty, acknowledge, push, push_checked,
  find_sent, finished_unchecked, new_by_peer, new_by_local,
}
use mdswp.Send.Loop.{unacknowledged, acknowledge_lem}
use mdswp.Send.Positions.{span, mem-span, Matches, Between}
use mdswp.Send.Track.{Outstanding}

pub new_by_peer-Outstanding :
    (f : ℕ → SequentialSegment) (n : ℕ) → n < 256 → f n ≡ accept → Outstanding f n n (new_by_peer n)
unfolding new_by_peer
new_by_peer-Outstanding f n h e = record {
  at = [];
  ordered = omega arith;
  few = omega arith;
  next_at = omega arith;
  each_once = none_sent n;
  between = tt;
  matches = tt;
  waiting = ap (λ v. v ∷ []) (sym e);
}
  where
    none_sent : (k : ℕ) → Perm [] (span k (k - k))
    none_sent k = let zero_left : k - k ≡ 0 = omega arith in rw zero_left (Perm.refl [])

pub new_by_local-Outstanding :
    (f : ℕ → SequentialSegment) (n : ℕ) → Outstanding f (n + 1) (n + 1) (new_by_local n)
unfolding new_by_local
new_by_local-Outstanding f n = record {
  at = [];
  ordered = omega arith;
  few = omega arith;
  next_at = refl;
  each_once = none_sent (n + 1);
  between = tt;
  matches = tt;
  waiting = refl;
}
  where
    none_sent : (k : ℕ) → Perm [] (span k (k - k))
    none_sent k = let zero_left : k - k ≡ 0 = omega arith in rw zero_left (Perm.refl [])

-- What the number next to be sent acknowledges: all positions but the tenth before it.
next_acknowledges :
    (lo i n : ℕ) → lo ≤ i → i < lo + 10 → n ≡ i % 256 → acknowledged ((lo + 10) % 256) n ≡ ltb lo i
next_acknowledges lo i n x y e = elim (Bool-cases (ltb lo i)) [
  | inl later ↦ rw later (lt→ltb _ _ (near later))
  | inr first ↦ rw first (le→ltb _ _ (far first))
]
  where
    near : ltb lo i ≡ true → wrapping_sub ((lo + 10) % 256) n < 10
    near later = let lt : lo < i = ground arith in omega arith

    far : ltb lo i ≡ false → 10 ≤ wrapping_sub ((lo + 10) % 256) n
    far first = let le : i ≤ lo = ground arith in omega arith

module _ (f : ℕ → SequentialSegment) (lo : ℕ) where
  -- The first outstanding segment is left.
  first_left :
      (at : List ℕ) (es : List SentSegment)
      → All (Between lo (lo + 10)) at
      → Matches f at es
      → Mem lo at
      → null (unacknowledged ((lo + 10) % 256) es) ≡ false
  first_left [] es b m mem = absurd (not-mem-nil mem)
  first_left (i ∷ at) [] b m mem = absurd m
  first_left (i ∷ at) (e ∷ es) b m mem =
      let test = next_acknowledges lo i e.seq_num b.0.0 b.0.1 m.0 in
      elim (Bool-cases (ltb lo i)) [
        | inl later ↦
            let ne : lo ≢ i = ground arith in
            let rest : Mem lo at =
              Or.elim Mem-prop (mem-cons.0 mem) (λ q. absurd (ne q)) (λ k. k) in
            rw (test ∙ later) (first_left at es b.1 m.2 rest)
        | inr first ↦ rw (test ∙ first)
      ]

  -- And no other.
  last_gone :
      (at : List ℕ) (es : List SentSegment)
      → All (Between lo (lo + 10)) at
      → Matches f at es
      → find_sent ((lo + 9) % 256) (unacknowledged ((lo + 10) % 256) es) ≡ none
  unfolding find_sent
  last_gone [] [] b m = refl
  last_gone [] (e ∷ es) b m = absurd m
  last_gone (i ∷ at) [] b m = absurd m
  last_gone (i ∷ at) (e ∷ es) b m =
      let test = next_acknowledges lo i e.seq_num b.0.0 b.0.1 m.0 in
      elim (Bool-cases (ltb lo i)) [
        | inl later ↦ rw (test ∙ later) (last_gone at es b.1 m.2)
        | inr first ↦
            let le : i ≤ lo = ground arith in
            let low : i ≡ lo = omega arith in
            let other : (e.seq_num == (lo + 9) % 256) ≡ false =
              ==_false e.seq_num ((lo + 9) % 256) (omega (arith, m.0)) in
            rw (test ∙ first, other) (last_gone at es b.1 m.2)
      ]

  unwrap_panics :
      (s : SendStorage) (u : SequentialSegment)
      → null s.queue_sent ≡ false
      → s.queue_unsent ≡ []
      → find_sent (wrapping_sub s.next_unsent 1) s.queue_sent ≡ none
      → u ≢ accept
      → push s u ≡ panic
  unfolding push push_checked finished_unchecked is_empty
  unwrap_panics s accept h q e ne = absurd (ne refl)
  unwrap_panics s finish h q e ne = ground arith
  unwrap_panics s (payload d) h q e ne = ground arith

  -- A defect: with a full window outstanding and nothing waiting, a peer that acknowledges the
  -- number that is next to be sent is believed; all but the oldest sent segment are dropped, and the
  -- next `push` of FINISH or DATA panics.
  pub acknowledge_unsent_panics :
      (s : SendStorage)
      → Outstanding f lo (lo + 10) s
      → s.queue_unsent ≡ []
      → (s' : SendStorage) × (acknowledge s ((lo + 10) % 256) ≡ done (ok tt, s'))
        × ((u : SequentialSegment) → u ≢ accept → push s' u ≡ panic)
  acknowledge_unsent_panics s v q =
      let offset : wrapping_sub ((lo + 10) % 256) ((lo + 10) % 256) ≡ 0 = omega arith in
      let number : wrapping_sub s.next_unsent 1 ≡ (lo + 9) % 256 = omega (arith, v.next_at) in
      let is_there : Mem lo v.at =
        Perm.subset (Perm.symm v.each_once) lo
          (mem-span lo lo (lo + 10 - lo) (omega arith) (omega arith)) in
      (
        record s { queue_sent = unacknowledged ((lo + 10) % 256) s.queue_sent },
        acknowledge_lem s ((lo + 10) % 256) ∙ rw (v.next_at, offset),
        λ u ne.
            unwrap_panics _ u (first_left v.at s.queue_sent v.between v.matches is_there) q
              (rw number (last_gone v.at s.queue_sent v.between v.matches)) ne,
      )
