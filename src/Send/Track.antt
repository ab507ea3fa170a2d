-- ===== src/Send/Track.antt =====
-- stream/send.rs: the sending storage against the unbounded positions of its sequence.
use mathlib.Core.List.{Perm, perm_middle}
use mathlib.Core.List.Perm
use mdswp.Prelude.{
  ℕ, ◌+◌, ◌-◌, ◌/◌, ◌%◌, ◌≤◌, ◌<◌, ◌≡◌, refl, subst, inl, inr, true, false, List, [], ◌∷◌, ◌++◌,
  append-nil, Option, none, some, arith, length, All, All-append, positions, length-positions,
  Bool-cases, ltb,
}
use mdswp.Util.{conn_timeout, elapsed}
use mdswp.Segment.{SequentialSegment}
use mdswp.Send.{SentSegment, SendStorage, try_pop_sent}
use mdswp.Send.Positions.{span, Perm-length, Matches, Matches-length, Matches-append, Between}

-- The storage holds the segments of `f` that are sent and not acknowledged, those of the positions
-- from `lo` up to `hi`, each once and in some order, at most ten; and those that wait, from `hi` on.
pub record Outstanding (f : ℕ → SequentialSegment) (lo hi : ℕ) (s : SendStorage) : Type 0 where
  pub at : List ℕ
  pub ordered : lo ≤ hi
  pub few : hi ≤ lo + 10
  pub next_at : s.next_unsent ≡ hi % 256
  pub each_once : Perm at (span lo (hi - lo))
  pub between : All (Between lo hi) at
  pub matches : Matches f at s.queue_sent
  pub waiting : s.queue_unsent ≡ positions f hi (length s.queue_unsent)

module _ (f : ℕ → SequentialSegment) (lo hi : ℕ) (s : SendStorage) (v : Outstanding f lo hi s) where
  pub length-queue_sent : length s.queue_sent ≡ hi - lo
  length-queue_sent = omega (
    arith,
    Matches-length f v.at s.queue_sent v.matches,
    Perm-length v.each_once,
    length-positions (λ i. i) lo (hi - lo),
  )

-- A segment that `pop` gives is one of those outstanding, under its own number.
abbrev pub Sends : (ℕ → SequentialSegment) → ℕ → ℕ → Option (ℕ × SequentialSegment) → Type 0
Sends f lo hi none = Unit {0}
Sends f lo hi (some (n, v)) = (i : ℕ) × (lo ≤ i) × (i < hi) × (n ≡ i % 256) × (v ≡ f i)

pub sent_none : (s : SendStorage) (now : ℕ) → s.queue_sent ≡ [] → try_pop_sent s now ≡ (none, s)
unfolding try_pop_sent
sent_none s now q = ground arith

module _ (s : SendStorage) (now : ℕ) (e : SentSegment) (es : List SentSegment)
    (q : s.queue_sent ≡ e ∷ es) where
  pub sent_due :
      ltb (conn_timeout / 2) (elapsed now e.last_pop) ≡ true
      → try_pop_sent s now ≡ (
        some (e.seq_num, e.segment),
        record s { queue_sent = es ++ record e { last_pop = now } ∷ [] },
      )
  unfolding try_pop_sent
  sent_due due = ground arith

  pub sent_early :
      ltb (conn_timeout / 2) (elapsed now e.last_pop) ≡ false → try_pop_sent s now ≡ (none, s)
  unfolding try_pop_sent
  sent_early early = ground arith

module _ (f : ℕ → SequentialSegment) (lo hi : ℕ) where
  pub rotated :
      (s : SendStorage) (e : SentSegment) (es : List SentSegment) (now : ℕ)
      → s.queue_sent ≡ e ∷ es
      → Outstanding f lo hi s
      → Outstanding f lo hi (record s { queue_sent = es ++ record e { last_pop = now } ∷ [] })
        × ((i : ℕ) × (lo ≤ i) × (i < hi) × (e.seq_num ≡ i % 256) × (e.segment ≡ f i))
  rotated s e es now q v = turn v.at v.each_once v.between (subst (Matches f v.at) q v.matches)
    where
      turn :
          (at : List ℕ)
          → Perm at (span lo (hi - lo))
          → All (Between lo hi) at
          → Matches f at (e ∷ es)
          → Outstanding f lo hi (record s { queue_sent = es ++ record e { last_pop = now } ∷ [] })
            × ((i : ℕ) × (lo ≤ i) × (i < hi) × (e.seq_num ≡ i % 256) × (e.segment ≡ f i))
      turn [] p b m = absurd m
      turn (i ∷ at) p b m = (
        record {
          at = at ++ i ∷ [];
          ordered = v.ordered;
          few = v.few;
          next_at = v.next_at;
          each_once =
              Perm.trans (perm_middle at []) (Perm.trans (rw append-nil (Perm.refl (i ∷ at))) p);
          between = All-append (Between lo hi) at (i ∷ []) b.1 (b.0, tt);
          matches = Matches-append f at (i ∷ []) es _ m.2 (m.0, m.1, tt);
          waiting = v.waiting;
        },
        (i, b.0.0, b.0.1, m.0, m.1),
      )

  -- `try_pop_sent` sends nothing, or again what is outstanding.
  pub try_pop_sent_lem :
      (s : SendStorage) (now : ℕ)
      → Outstanding f lo hi s
      → (r : Option (ℕ × SequentialSegment)) × (s' : SendStorage) × (try_pop_sent s now ≡ (r, s'))
        × Outstanding f lo hi s'
        × Sends f lo hi r
  try_pop_sent_lem s now v = by_queue s.queue_sent refl
    where
      by_queue :
          (es : List SentSegment)
          → s.queue_sent ≡ es
          → (r : Option (ℕ × SequentialSegment)) × (s' : SendStorage) × (try_pop_sent s now
              ≡ (r, s'))
            × Outstanding f lo hi s'
            × Sends f lo hi r
      by_queue [] q = (none, s, sent_none s now q, v, tt)
      by_queue (e ∷ es) q = elim (Bool-cases (ltb (conn_timeout / 2) (elapsed now e.last_pop))) [
        | inl due ↦
            let (v', sends) = rotated s e es now q v in
            (some (e.seq_num, e.segment), _, sent_due s now e es q due, v', sends)
        | inr early ↦ (none, s, sent_early s now e es q early, v, tt)
      ]
