-- ===== src/Send/Window.antt =====
-- stream/send.rs: `pop`, which sends again what is due, or the next segment that waits.
use mathlib.Core.List.{Perm}
use mathlib.Core.List.Perm
use mdswp.Prelude.{
  ℕ, suc, ◌+◌, ◌-◌, ◌%◌, ◌≤◌, ◌<◌, ◌≡◌, refl, ◌∙◌, ap, sym, subst, List, [], ◌∷◌, ◌++◌, Option,
  none, some, arith, length, All, All-append, positions, positions-append, ℕ_discrete,
}
use mdswp.Util.{wrapping_add, Run, done}
use mdswp.Segment.{SequentialSegment}
use mdswp.Send.{SendStorage, try_pop_sent, try_pop_unsent, pop}
use mdswp.Send.Track.{Outstanding, Sends, length-queue_sent, try_pop_sent_lem}
use mdswp.Send.Positions.{span, Matches-append, Between}

span-snoc : (lo hi : ℕ) → lo ≤ hi → span lo (hi - lo) ++ hi ∷ [] ≡ span lo (suc hi - lo)
span-snoc lo hi h =
    let end : hi ≡ lo + (hi - lo) = omega arith in
    let count : hi - lo + 1 ≡ suc hi - lo = omega arith in
    ap (λ k. span lo (hi - lo) ++ k ∷ []) end
    ∙ positions-append (λ i. i) lo (hi - lo) 1
    ∙ ap (span lo) count

Between-weaken : (lo hi : ℕ) (at : List ℕ) → All (Between lo hi) at → All (Between lo (suc hi)) at
Between-weaken lo hi [] b = tt
Between-weaken lo hi (i ∷ at) b = ((b.0.0, omega arith), Between-weaken lo hi at b.1)

-- A segment that is sent for the first time joins those outstanding.
pub sent_new :
    (f : ℕ → SequentialSegment) (lo hi : ℕ) (s : SendStorage) (now : ℕ) (u : SequentialSegment)
    (us : List SequentialSegment)
    → Outstanding f lo hi s
    → hi < lo + 10
    → s.queue_unsent ≡ u ∷ us
    → Outstanding f lo (suc hi) (record {
      queue_sent =
          s.queue_sent ++ record { seq_num = s.next_unsent; segment = u; last_pop = now } ∷ [];
      queue_unsent = us;
      next_unsent = wrapping_add s.next_unsent 1;
    })
      × (u ≡ f hi)
sent_new f lo hi s now u us v room q =
    let w : u ∷ us ≡ positions f hi (suc (length us)) =
      sym q ∙ v.waiting ∙ ap (λ l. positions f hi (length l)) q in
    let number : wrapping_add s.next_unsent 1 ≡ suc hi % 256 = omega (arith, v.next_at) in
    (
      record {
        at = v.at ++ hi ∷ [];
        ordered = omega (arith, v.ordered);
        few = omega arith;
        next_at = number;
        each_once =
            subst (Perm (v.at ++ hi ∷ [])) (span-snoc lo hi v.ordered)
              (Perm.append_right (hi ∷ []) v.each_once);
        between =
            All-append (Between lo (suc hi)) v.at (hi ∷ []) (Between-weaken lo hi v.at v.between)
              ((v.ordered, omega arith), tt);
        matches =
            Matches-append f v.at (hi ∷ []) s.queue_sent _ v.matches (v.next_at, head_eq w, tt);
        waiting = tail_eq w;
      },
      head_eq w,
    )
  where
    head_eq : u ∷ us ≡ f hi ∷ positions f (suc hi) (length us) → u ≡ f hi
    head_eq e = cc

    tail_eq :
        u ∷ us ≡ f hi ∷ positions f (suc hi) (length us) → us ≡ positions f (suc hi) (length us)
    tail_eq e = cc

pub unsent_full :
    (s : SendStorage) (now : ℕ) → length s.queue_sent ≡ 10 → try_pop_unsent s now ≡ done (none, s)
unfolding try_pop_unsent
unsent_full s now h = ground arith

pub unsent_none :
    (s : SendStorage) (now : ℕ)
    → length s.queue_sent ≤ 10
    → s.queue_unsent ≡ []
    → try_pop_unsent s now ≡ done (none, s)
unfolding try_pop_unsent
unsent_none s now h q = ground arith

pub unsent_next :
    (s : SendStorage) (now : ℕ) (u : SequentialSegment) (us : List SequentialSegment)
    → length s.queue_sent < 10
    → s.queue_unsent ≡ u ∷ us
    → try_pop_unsent s now
      ≡ done (
        some (s.next_unsent, u),
        record {
          queue_sent =
              s.queue_sent ++ record { seq_num = s.next_unsent; segment = u; last_pop = now } ∷ [];
          queue_unsent = us;
          next_unsent = wrapping_add s.next_unsent 1;
        },
      )
unfolding try_pop_unsent
unsent_next s now u us h q = ground arith

-- What `pop` comes to: it returns, and the outstanding positions grow by one at most.
abbrev pub Popped :
    (ℕ → SequentialSegment) → ℕ → ℕ → Run (Option (ℕ × SequentialSegment) × SendStorage) → Type 0
Popped f lo hi out =
    (r : Option (ℕ × SequentialSegment)) × (s' : SendStorage) × (hi' : ℕ) × (out ≡ done (r, s'))
    × (hi ≤ hi')
    × (hi' ≤ hi + 1)
    × Outstanding f lo hi' s'
    × Sends f lo hi' r

pub pop_next :
    (s s' : SendStorage) (now : ℕ)
    → try_pop_sent s now ≡ (none, s')
    → pop s now ≡ try_pop_unsent s' now
unfolding pop
pop_next s s' now e = ground arith

pub pop_due :
    (s s' : SendStorage) (now : ℕ) (r : ℕ × SequentialSegment)
    → try_pop_sent s now ≡ (some r, s')
    → pop s now ≡ done (some r, s')
unfolding pop
pop_due s s' now r e = ground arith

module _ (f : ℕ → SequentialSegment) (lo hi : ℕ) where
  try_pop_unsent_lem :
      (s : SendStorage) (now : ℕ) → Outstanding f lo hi s → Popped f lo hi (try_pop_unsent s now)
  try_pop_unsent_lem s now v = elim (ℕ_discrete (hi - lo) 10) [
    | yes e ↦ (none, s, hi, unsent_full s now (size ∙ e), omega arith, omega arith, v, tt)
    | no ne ↦ by_queue s.queue_unsent refl (omega (arith, v.few))
  ]
    where
      size : length s.queue_sent ≡ hi - lo
      size = length-queue_sent f lo hi s v

      by_queue :
          (us : List SequentialSegment)
          → s.queue_unsent ≡ us
          → hi < lo + 10
          → Popped f lo hi (try_pop_unsent s now)
      by_queue [] q room =
          (none, s, hi, unsent_none s now (omega (arith, size)) q, omega arith, omega arith, v, tt)
      by_queue (u ∷ us) q room =
          let (v', same) = sent_new f lo hi s now u us v room q in
          (
            some (s.next_unsent, u),
            _,
            suc hi,
            unsent_next s now u us (omega (arith, size)) q,
            omega arith,
            omega arith,
            v',
            (hi, v.ordered, omega arith, v.next_at, same),
          )

  pop_after :
      (s s' : SendStorage) (now : ℕ) (r : Option (ℕ × SequentialSegment))
      → try_pop_sent s now ≡ (r, s')
      → Outstanding f lo hi s'
      → Sends f lo hi r
      → Popped f lo hi (pop s now)
  pop_after s s' now none e v sends =
      subst (Popped f lo hi) (sym (pop_next s s' now e)) (try_pop_unsent_lem s' now v)
  pop_after s s' now (some r) e v sends =
      (some r, s', hi, pop_due s s' now r e, omega arith, omega arith, v, sends)

  -- From a storage that holds what is outstanding between `lo` and `hi`, `pop` returns: its
  -- assertion on the length of the queue holds. It gives nothing, or an outstanding segment under
  -- its own number; one position at most is new, the next of the sequence, and the outstanding
  -- segments stay ten at most.
  pub pop_lem : (s : SendStorage) (now : ℕ) → Outstanding f lo hi s → Popped f lo hi (pop s now)
  pop_lem s now v =
      let (r, s', e, v', sends) = try_pop_sent_lem f lo hi s now v in
      pop_after s s' now r e v' sends
