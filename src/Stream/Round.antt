-- ===== src/Stream/Round.antt =====
-- stream/inner.rs: what a round of the worker sends, against a definition without a loop.
use mdswp.Prelude.{
  ℕ, ◌-◌, ◌/◌, ◌≡◌, Bool, false, Option, none, some, List, [], ◌∷◌, ◌++◌, map, length, take, drop,
  ltb, if◌then◌else◌,
}
use mdswp.Util.{conn_timeout, elapsed, wrapping_add}
use mdswp.Segment.{SequentialSegment, Segment, acknowledge, sequential}
use mdswp.Send.{SentSegment, SendStorage}
use mdswp.Send
use mdswp.Stream.{SocketAddr, StreamInner, Effect, send_to}

abbrev is_due : ℕ → SentSegment → Bool
is_due now e = ltb (conn_timeout / 2) (elapsed now e.last_pop)

-- The sent segments at the front that are due, and the others.
abbrev due_front : ℕ → List SentSegment → List SentSegment
due_front now [] = []
due_front now (e ∷ es) = if is_due now e then e ∷ due_front now es else []

abbrev behind_due : ℕ → List SentSegment → List SentSegment
behind_due now [] = []
behind_due now (e ∷ es) = if is_due now e then behind_due now es else e ∷ es

abbrev sent_now : ℕ → SentSegment → SentSegment
sent_now now e = record e { last_pop = now }

-- Segments that are sent for the first time, from the number `n` on.
abbrev numbered : ℕ → ℕ → List SequentialSegment → List SentSegment
numbered now n [] = []
numbered now n (v ∷ vs) =
    record { seq_num = n; segment = v; last_pop = now } ∷ numbered now (wrapping_add n 1) vs

abbrev number_after : ℕ → List SequentialSegment → ℕ
number_after n [] = n
number_after n (v ∷ vs) = number_after (wrapping_add n 1) vs

abbrev pub sends_of : SocketAddr → List SentSegment → List Effect
sends_of a es = map (λ e. send_to a (sequential e.seq_num e.segment)) es

-- Whether the front of a queue is not due.
abbrev RestsFront : ℕ → List SentSegment → Type 0
RestsFront now [] = Unit
RestsFront now (e ∷ es) = is_due now e ≡ false

-- The stream with the given queues.
abbrev holding : StreamInner → List SentSegment → List SequentialSegment → ℕ → StreamInner
holding s es us n = record s {
  send_storage = record { queue_sent = es; queue_unsent = us; next_unsent = n };
}

-- The first segments that wait, as many as there is room for in the window.
abbrev first_waiting : SendStorage → List SequentialSegment
first_waiting st = take (10 - length st.queue_sent) st.queue_unsent

-- What a round sends: all that is due at the front again, then the next segments.
abbrev pub sent_by_round : ℕ → SendStorage → List SentSegment
sent_by_round now st = due_front now st.queue_sent ++ numbered now st.next_unsent (first_waiting st)

abbrev pub after_round : ℕ → SendStorage → SendStorage
after_round now st = record {
  queue_sent =
      (behind_due now st.queue_sent ++ map (sent_now now) (due_front now st.queue_sent))
      ++ numbered now st.next_unsent (first_waiting st);
  queue_unsent = drop (10 - length st.queue_sent) st.queue_unsent;
  next_unsent = number_after st.next_unsent (first_waiting st);
}

abbrev pub acknowledges : SocketAddr → Option ℕ → List Effect
acknowledges a none = []
acknowledges a (some n) = send_to a (acknowledge n) ∷ []
