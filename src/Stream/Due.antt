-- ===== src/Stream/Due.antt =====
-- stream/inner.rs: each segment that `pop` gives in a round of the worker leaves less to send.
use mdswp.Prelude.{
  ℕ, suc, ◌+◌, ◌-◌, ◌/◌, ◌≤◌, ◌<◌, ◌≡◌, refl, ◌∙◌, ap, ◌⊎◌, inl, inr, Option, none, some, List, [],
  ◌∷◌, ◌++◌, length, length-append, arith, if◌then◌else◌, ltb, Bool-cases,
}
use mdswp.Util.{done, conn_timeout, elapsed}
use mdswp.Segment.{SequentialSegment}
use mdswp.Send.{
  SentSegment, SendStorage, is_empty, try_pop_sent, try_pop_unsent, finished_unchecked,
}
use mdswp.Send
use mdswp.Send.Track.{sent_none, sent_due, sent_early}
use mdswp.Send.Window.{unsent_full, unsent_none, unsent_next, pop_next, pop_due}

-- The sent segments that are due to be sent again.
abbrev pub due : ℕ → List SentSegment → ℕ
due now [] = 0
due now (e ∷ es) = (if ltb (conn_timeout / 2) (elapsed now e.last_pop) then 1 else 0) + due now es

due-append : (now : ℕ) (xs ys : List SentSegment) → due now (xs ++ ys) ≡ due now xs + due now ys
due-append now [] ys = omega arith
due-append now (x ∷ xs) ys = omega (arith, due-append now xs ys)

pub due-le-length : (now : ℕ) (es : List SentSegment) → due now es ≤ length es
due-le-length now [] = omega arith
due-le-length now (e ∷ es) = ground (arith, due-le-length now es)

-- How many segments can still be sent in this round.
abbrev pub left_to_send : ℕ → SendStorage → ℕ
left_to_send now st = due now st.queue_sent + (10 - length st.queue_sent)

abbrev pub IsBounded : SendStorage → Type 0
IsBounded st = length st.queue_sent ≤ 10

-- One `pop` gives nothing, or leaves less to send.
abbrev pub Popped : ℕ → SendStorage → Type 0
Popped now st =
    (r : Option (ℕ × SequentialSegment)) × (st' : SendStorage) × (Send.pop st now ≡ done (r, st'))
    × IsBounded st'
    × ((r ≡ none) ⊎ (left_to_send now st' < left_to_send now st))

just_sent : (now : ℕ) (e : SentSegment) → e.last_pop ≡ now → due now (e ∷ []) ≡ 0
just_sent now e h = let fresh : elapsed now e.last_pop ≡ 0 = omega (arith, h) in rw (fresh) refl

pop_unsent :
    (now : ℕ) (st : SendStorage)
    → try_pop_sent st now ≡ (none, st)
    → IsBounded st
    → (us : List SequentialSegment) → st.queue_unsent ≡ us
    → Popped now st
pop_unsent now st e b [] q = (none, st, pop_next st st now e ∙ unsent_none st now b q, b, inl refl)
pop_unsent now st e b (u ∷ us) q = elim (Bool-cases (ltb (length st.queue_sent) 10)) [
  | inl room ↦
      let new : SentSegment = record { seq_num = st.next_unsent; segment = u; last_pop = now } in
      let less : length st.queue_sent < 10 = ground arith in
      let longer = length-append st.queue_sent (new ∷ []) in
      let same = due-append now st.queue_sent (new ∷ []) in
      let none_due = just_sent now new refl in
      (
        some (st.next_unsent, u),
        _,
        pop_next st st now e ∙ unsent_next st now u us (ground arith) q,
        omega (arith, longer, less),
        inr (omega (arith, longer, same, none_due, less)),
      )
  | inr full ↦ (none, st, pop_next st st now e ∙ unsent_full st now (ground arith), b, inl refl)
]

pub pop_lessens : (now : ℕ) (st : SendStorage) → IsBounded st → Popped now st
pop_lessens now st b = by_queue st.queue_sent refl
  where
    by_queue : (es : List SentSegment) → st.queue_sent ≡ es → Popped now st
    by_queue [] q = pop_unsent now st (sent_none st now q) b st.queue_unsent refl
    by_queue (e ∷ es) q = elim (Bool-cases (ltb (conn_timeout / 2) (elapsed now e.last_pop))) [
      | inr early ↦ pop_unsent now st (sent_early st now e es q early) b st.queue_unsent refl
      | inl is_due ↦
          let again : SentSegment = record e { last_pop = now } in
          let size = length-append es (again ∷ []) in
          let size' = ap length q in
          let same = due-append now es (again ∷ []) in
          let none_due = just_sent now again refl in
          let before : due now st.queue_sent ≡ suc (due now es) =
            ap (due now) q ∙ rw is_due (omega arith) in
          (
            some (e.seq_num, e.segment),
            _,
            pop_due st _ now (e.seq_num, e.segment) (sent_due st now e es q is_due),
            omega (arith, size, size', b),
            inr (omega (arith, size, size', same, none_due, before)),
          )
    ]
