-- ===== src/Link/Settle/Resend.antt =====
-- stream/send.rs: `pop` sends again all that is outstanding, once its time has come.
use mathlib.Core.List.Perm
use mdswp.Prelude.{
  ℕ, ◌+◌, ◌-◌, ◌/◌, ◌%◌, ◌≤◌, ◌<◌, ◌≡◌, refl, ◌∙◌, ap, sym, inl, inr, true, some, List, [], ◌∷◌,
  ◌++◌, append_assoc, append-nil, arith, All, subst, Bool-cases, ltb, ◌==◌, ==_iff, lt→ltb,
}
use mdswp.Util.{conn_timeout, elapsed}
use mdswp.Segment.{SequentialSegment}
use mdswp.Send.{SentSegment, SendStorage, find_sent}
use mdswp.Send.Positions.{Between, mem-span, find_sent-Matches}
use mdswp.Send.Track.{rotated, sent_due}
use mdswp.Send.Window.{pop_due}
use mdswp.Link.{In, Sides, sends}
use mdswp.Link.Settle.{stop, step, Ready, Came, goes_on}

abbrev Due : ℕ → SentSegment → Type 0
Due now e = ltb (conn_timeout / 2) (elapsed now e.last_pop) ≡ true

-- A time at which each of some segments is due.
due_time : List SentSegment → ℕ
due_time [] = conn_timeout
due_time (e ∷ es) = e.last_pop + due_time es

due_least : (es : List SentSegment) → conn_timeout ≤ due_time es
unfolding due_time
due_least [] = omega arith
due_least (e ∷ es) = let h = due_least es in omega arith

late-Due : (e : SentSegment) (now : ℕ) → e.last_pop + conn_timeout ≤ now → Due now e
late-Due e now h = lt→ltb _ _ (omega arith)

due_time-Due : (es : List SentSegment) (now : ℕ) → due_time es ≤ now → All (Due now) es
unfolding due_time
due_time-Due [] now h = tt
due_time-Due (e ∷ es) now h =
    let least = due_least es in (late-Due e now (omega arith), due_time-Due es now (omega arith))

-- The packet of a segment is on its way.
abbrev Resent :
    (ℕ → SequentialSegment) → ℕ → ℕ → List (ℕ × SequentialSegment) → SentSegment → Type 0
Resent f lo hi ps e = (i : ℕ) × Between lo hi i × (e.seq_num ≡ i % 256) × In (i, f i) ps

-- The packets of the segments at a place in the queue are sent, and nothing else changes.
record Again (f : ℕ → SequentialSegment) (start lo hi : ℕ) (a : Sides) (xs : List SentSegment)
    : Type 0 where
  came : Came f start lo hi a
  same_receiver : came.later.receiver ≡ a.receiver
  on_way : All (Resent f lo hi came.later.packets) xs
  kept : (p : ℕ × SequentialSegment) → In p a.packets → In p came.later.packets

module _ (f : ℕ → SequentialSegment) (start lo hi now : ℕ) where
  stay : {a : Sides} → Ready f start lo hi a → Again f start lo hi a []
  stay {a} v = record {
    came = record {
      later = a;
      moves = stop;
      ready = v;
      pushed_is = refl;
      output_is = refl;
      waiting_is = refl;
    };
    same_receiver = refl;
    on_way = tt;
    kept = λ p place. place;
  }

  resend_one :
      {a : Sides} (e : SentSegment) (es : List SentSegment)
      → Ready f start lo hi a
      → a.sender.queue_sent ≡ e ∷ es
      → Due now e
      → (x : Again f start lo hi a (e ∷ [])) × (x.came.later.sender.queue_sent
          ≡ es ++ record e { last_pop = now } ∷ [])
  resend_one {a} e es v q due =
      let (out, (i, least, most, number, what)) =
        rotated f lo hi a.sender e es now q v.outstanding in
      let s' : SendStorage = record a.sender {
        queue_sent = es ++ record e { last_pop = now } ∷ [];
      } in
      let ran = pop_due a.sender s' now (e.seq_num, e.segment) (sent_due a.sender now e es q due) in
      (
        record {
          came = record {
            later = record a { sender = s'; packets = (i, e.segment) ∷ a.packets };
            moves =
                step stop
                  (sends now i e.seq_num e.segment s' ran number (omega (arith, v.counted))
                    (omega (arith, v.counted, v.outstanding.few)))
                  tt;
            ready = record {
              outstanding = out;
              counted = v.counted;
              in_order = v.in_order;
              behind = v.behind;
              within = v.within;
              low = v.low;
              lag = v.lag;
            };
            pushed_is = refl;
            output_is = refl;
            waiting_is = refl;
          };
          same_receiver = refl;
          on_way = ((i, (least, most), number, inl (ap (λ u. (i, u)) what)), tt);
          kept = λ p place. inr place;
        },
        refl,
      )

  Resent-kept :
      (ps qs : List (ℕ × SequentialSegment))
      → ((p : ℕ × SequentialSegment) → In p ps → In p qs)
      → (es : List SentSegment) → All (Resent f lo hi ps) es
      → All (Resent f lo hi qs) es
  Resent-kept ps qs g [] h = tt
  Resent-kept ps qs g (e ∷ es) h = ((h.0.0, h.0.1, h.0.2, g _ h.0.3), Resent-kept ps qs g es h.1)

  -- Those at the front of the queue are sent again, one by one.
  resend_front :
      (xs ys : List SentSegment) {a : Sides}
      → Ready f start lo hi a
      → a.sender.queue_sent ≡ xs ++ ys
      → All (Due now) xs
      → Again f start lo hi a xs
  resend_front [] ys {a} v q due = stay v
  resend_front (e ∷ xs) ys {a} v q due =
      let (x, q') = resend_one e (xs ++ ys) v q due.0 in
      let y =
        resend_front xs (ys ++ record e { last_pop = now } ∷ []) {a = x.came.later} x.came.ready
          (q' ∙ append_assoc xs ys (record e { last_pop = now } ∷ [])) due.1 in
      record {
        came = goes_on f start x.came y.came;
        same_receiver = y.same_receiver ∙ x.same_receiver;
        on_way = (
          (Resent-kept x.came.later.packets y.came.later.packets y.kept (e ∷ []) x.on_way).0,
          y.on_way,
        );
        kept = λ p place. y.kept p (x.kept p place);
      }

  found_on_way :
      (ps : List (ℕ × SequentialSegment)) (j : ℕ) (u : SequentialSegment)
      → hi ≤ lo + 10
      → Between lo hi j
      → (es : List SentSegment) → All (Resent f lo hi ps) es
      → find_sent (j % 256) es ≡ some u
      → In (j, f j) ps
  unfolding find_sent
  found_on_way ps j u few within [] h e = cc
  found_on_way ps j u few within (x ∷ es) h e = elim (Bool-cases (x.seq_num == j % 256)) [
    | inl hit ↦
        let (i, between, number, place) = h.0 in
        let same : i ≡ j = omega (arith, (==_iff x.seq_num (j % 256)).0 hit) in
        subst (λ k. In (k, f k) ps) same place
    | inr miss ↦ found_on_way ps j u few within es h.1 (rw miss at e)
  ]

-- All that is outstanding can be sent again, whatever the network has lost.
pub resends :
    (f : ℕ → SequentialSegment) (start lo hi : ℕ) {a : Sides}
    → Ready f start lo hi a
    → (came : Came f start lo hi a) × (came.later.receiver ≡ a.receiver)
      × ((j : ℕ) → lo ≤ j → j < hi → In (j, f j) came.later.packets)
resends f start lo hi {a} v =
    let es = a.sender.queue_sent in
    let now = due_time es in
    let x =
      resend_front f start lo hi now es [] {a = a} v (sym (append-nil es))
        (due_time-Due es now (omega arith)) in
    let o = v.outstanding in
    (
      x.came,
      x.same_receiver,
      λ j least most.
          found_on_way f start lo hi now x.came.later.packets j (f j) o.few (least, most) es
            x.on_way
            (find_sent-Matches f lo hi j (omega (arith, o.few)) (least, most) o.at es o.between
              o.matches
              (Perm.subset (Perm.symm o.each_once) j
                (mem-span j lo (hi - lo) least (omega arith)))),
    )
