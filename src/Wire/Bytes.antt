-- ===== src/Wire/Bytes.antt =====
-- stream/inner.rs: the bytes of two streams. What was written is what was queued before a FINISH and
-- a rest, and what was read is what was taken from the queue.
use mdswp.Prelude.{
  ℕ, ◌≡◌, ◌≢◌, refl, ◌∙◌, sym, ap, inl, inr, true, false, List, [], ◌∷◌, ◌++◌, take, drop,
  append-nil, append_assoc, take-append-drop, if◌then◌else◌, Bool-cases,
}
use mdswp.Util.{ok}
use mdswp.Segment.{SequentialSegment, accept, finish, payload}
use mdswp.Stream.{StreamInner}
use mdswp.Stream.Incoming.{take_segment}
use mdswp.Stream.Reading.{bytes_before_finish, has_finish}
use mdswp.Wire.{piece}

-- The bytes of what is pushed last, if no FINISH was before.
pub before-append :
    (vs us : List SequentialSegment)
    → has_finish vs ≡ false
    → bytes_before_finish (vs ++ us) ≡ bytes_before_finish vs ++ bytes_before_finish us
before-append [] us e = refl
before-append (accept ∷ vs) us e = before-append vs us e
before-append (finish ∷ vs) us e = cc
before-append (payload d ∷ vs) us e =
    ap (λ q. d.bytes ++ q) (before-append vs us e)
    ∙ sym (append_assoc d.bytes (bytes_before_finish vs) (bytes_before_finish us))

pub after-finish :
    (vs us : List SequentialSegment)
    → has_finish vs ≡ true
    → bytes_before_finish (vs ++ us) ≡ bytes_before_finish vs
after-finish [] us e = cc
after-finish (accept ∷ vs) us e = after-finish vs us e
after-finish (finish ∷ vs) us e = refl
after-finish (payload d ∷ vs) us e = ap (λ q. d.bytes ++ q) (after-finish vs us e)

pub has_finish-append :
    (vs us : List SequentialSegment)
    → has_finish (vs ++ us) ≡ (if has_finish vs then true else has_finish us)
has_finish-append [] us = refl
has_finish-append (accept ∷ vs) us = has_finish-append vs us
has_finish-append (finish ∷ vs) us = refl
has_finish-append (payload d ∷ vs) us = has_finish-append vs us

-- What was written, against what was queued and what is in the buffer of a stream without error.
pub record Written (s : StreamInner) (written : List ℕ) (pushed : List SequentialSegment)
    : Type 0 where
  pub rest : List ℕ
  pub first : written ≡ bytes_before_finish pushed ++ rest
  pub buffered : s.conn_state ≡ ok tt → has_finish pushed ≡ false → rest ≡ s.send_buffer

-- What was read, against what was taken.
pub record ReadOut (s : StreamInner) (output : List SequentialSegment) (bytes_read : List ℕ)
    : Type 0 where
  pub first : bytes_read ++ s.recv_buffer ≡ bytes_before_finish output
  pub over : has_finish output ≡ s.recv_finished

differ : true ≢ false
differ e = cc

still-false :
    (vs us : List SequentialSegment) → has_finish (vs ++ us) ≡ false → has_finish vs ≡ false
still-false vs us e = elim (Bool-cases (has_finish vs)) [
  | inl is_true ↦ absurd (differ (sym (has_finish-append vs us ∙ rw is_true refl) ∙ e))
  | inr is_false ↦ is_false
]

not_over : (vs us : List SequentialSegment) → has_finish vs ≡ true → has_finish (vs ++ us) ≢ false
not_over vs us over e = let less = still-false vs us e in cc

finish_adds :
    (vs : List SequentialSegment) → bytes_before_finish (vs ++ finish ∷ []) ≡ bytes_before_finish vs
finish_adds [] = refl
finish_adds (accept ∷ vs) = finish_adds vs
finish_adds (finish ∷ vs) = refl
finish_adds (payload d ∷ vs) = ap (λ q. d.bytes ++ q) (finish_adds vs)

ends : (vs : List SequentialSegment) → has_finish (vs ++ finish ∷ []) ≢ false
ends [] e = cc
ends (accept ∷ vs) e = ends vs e
ends (finish ∷ vs) e = cc
ends (payload d ∷ vs) e = ends vs e

module _ (s t : StreamInner) (written : List ℕ) (pushed : List SequentialSegment)
    (h : Written s written pushed) where
  pub appended-Written :
      (bytes : List ℕ)
      → s.conn_state ≡ ok tt
      → t.send_buffer ≡ s.send_buffer ++ bytes
      → Written t (written ++ bytes) pushed
  appended-Written bytes live e = record {
    rest = h.rest ++ bytes;
    first = ap (λ q. q ++ bytes) h.first ∙ append_assoc (bytes_before_finish pushed) h.rest bytes;
    buffered = λ u more. ap (λ q. q ++ bytes) (h.buffered live more) ∙ sym e;
  }

  -- A piece of the buffer is queued.
  pub queued-Written :
      (n : ℕ)
      → s.conn_state ≡ ok tt
      → t.send_buffer ≡ drop n s.send_buffer
      → Written t written (pushed ++ payload (piece n s.send_buffer) ∷ [])
  queued-Written n live left = elim (Bool-cases (has_finish pushed)) [
    | inl over ↦ record {
      rest = h.rest;
      first = h.first ∙ ap (λ q. q ++ h.rest) (sym (after-finish pushed _ over));
      buffered = λ u more. absurd (not_over pushed _ over more);
    }
    | inr more ↦ record {
      rest = drop n s.send_buffer;
      first =
          h.first
          ∙ ap (λ q. bytes_before_finish pushed ++ q)
              (h.buffered live more ∙ sym (take-append-drop n s.send_buffer))
          ∙ sym (
              append_assoc (bytes_before_finish pushed) (take n s.send_buffer)
                (drop n s.send_buffer))
          ∙ ap (λ q. q ++ drop n s.send_buffer)
              (sym (
                before-append pushed _ more
                ∙ ap (λ q. bytes_before_finish pushed ++ q) (append-nil (take n s.send_buffer))));
      buffered = λ u e. sym left;
    }
  ]

  pub finished-Written : Written t written (pushed ++ finish ∷ [])
  finished-Written = record {
    rest = h.rest;
    first = h.first ∙ ap (λ q. q ++ h.rest) (sym (finish_adds pushed));
    buffered = λ u e. absurd (ends pushed e);
  }

  -- Nothing more is said of the buffer once a FINISH was queued, or after an error.
  pub over-Written : has_finish pushed ≡ true → Written t written pushed
  over-Written over = record {
    rest = h.rest;
    first = h.first;
    buffered = λ u more. absurd (differ (sym over ∙ more));
  }

  pub failed-Written : t.conn_state ≢ ok tt → Written t written pushed
  failed-Written bad = record {
    rest = h.rest;
    first = h.first;
    buffered = λ u more. absurd (bad u);
  }

  pub same-Written : s.conn_state ≡ ok tt → t.send_buffer ≡ s.send_buffer → Written t written pushed
  same-Written live e = record {
    rest = h.rest;
    first = h.first;
    buffered = λ u more. h.buffered live more ∙ sym e;
  }

module _ (s t : StreamInner) (output : List SequentialSegment) (bytes_read : List ℕ)
    (h : ReadOut s output bytes_read) where
  pub same-ReadOut :
      t.recv_buffer ≡ s.recv_buffer
      → t.recv_finished ≡ s.recv_finished
      → ReadOut t output bytes_read
  same-ReadOut e f = record { first = ap (λ q. bytes_read ++ q) e ∙ h.first; over = h.over ∙ sym f }

  pub copied-ReadOut :
      (n : ℕ)
      → t.recv_buffer ≡ drop n s.recv_buffer
      → t.recv_finished ≡ s.recv_finished
      → ReadOut t output (bytes_read ++ take n s.recv_buffer)
  copied-ReadOut n e f = record {
    first =
        append_assoc bytes_read (take n s.recv_buffer) t.recv_buffer
        ∙ ap (λ q. bytes_read ++ q)
            (ap (λ q. take n s.recv_buffer ++ q) e ∙ take-append-drop n s.recv_buffer)
        ∙ h.first;
    over = h.over ∙ sym f;
  }

none_before :
    (vs us : List SequentialSegment) → has_finish vs ≡ false → has_finish (vs ++ us) ≡ has_finish us
none_before vs us e = has_finish-append vs us ∙ rw e refl

-- One segment is taken, while no FINISH was taken.
pub taken-ReadOut :
    (s : StreamInner) (output : List SequentialSegment) (bytes_read : List ℕ)
    (v : SequentialSegment)
    → s.recv_finished ≡ false
    → ReadOut s output bytes_read
    → ReadOut (take_segment s v) (output ++ v ∷ []) bytes_read
unfolding take_segment
taken-ReadOut s output bytes_read accept more h = record {
  first =
      h.first
      ∙ sym (before-append output _ (h.over ∙ more) ∙ append-nil (bytes_before_finish output));
  over = none_before output _ (h.over ∙ more) ∙ sym more;
}
taken-ReadOut s output bytes_read finish more h = record {
  first =
      h.first
      ∙ sym (before-append output _ (h.over ∙ more) ∙ append-nil (bytes_before_finish output));
  over = none_before output _ (h.over ∙ more);
}
taken-ReadOut s output bytes_read (payload d) more h = record {
  first =
      sym (append_assoc bytes_read s.recv_buffer d.bytes)
      ∙ ap (λ q. q ++ d.bytes) h.first
      ∙ sym (
          before-append output _ (h.over ∙ more)
          ∙ ap (λ q. bytes_before_finish output ++ q) (append-nil d.bytes));
  over = none_before output _ (h.over ∙ more) ∙ sym more;
}
