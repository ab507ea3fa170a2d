-- ===== src/Wire/Delivered.antt =====
-- stream/inner.rs: what `read` gives on one stream is what was given to `write` on the other.
use mdswp.Prelude.{
  ℕ, ◌≡◌, refl, ◌∙◌, sym, subst, inl, inr, true, List, [], ◌++◌, append-nil, Bool-cases,
}
use mdswp.Util.{IoError, ok, err, done}
use mdswp.Segment.{SequentialSegment, payload}
use mdswp.Stream.{StreamInner}
use mdswp.Stream.Reading.{bytes_before_finish, has_finish}
use mdswp.Link.{Sides, Runs}
use mdswp.Wire.{
  SendNote, wrote, queued, sent, heard, RecvNote, got, took, gave, answered, SendAtom, appends,
  cuts, cut_refused, finishes, finish_refused, settles, draws, draws_none, hears, RecvAtom, takes,
  copies, Wire, note_send, note_recv, MaySend, MayReceive, Act, near_sends, near_receives,
  near_fails, far_receives, far_sends, far_fails, piece, Acts, here, next,
}
use mdswp.Wire
use mdswp.Wire.Carried.{
  halves, Carried, Act-Carried, SendAtom-recv, RecvAtom-send, error-Failed, payload_no_accept,
  pushed_bytes,
}
use mdswp.Wire.Refused.{refused-has_finish}
use mdswp.Link.Whole.{Begins}
use mdswp.Wire.Bytes.{
  before-append, after-finish, Written, ReadOut, appended-Written, queued-Written, finished-Written,
  over-Written, failed-Written, same-Written, same-ReadOut, copied-ReadOut, taken-ReadOut,
}

-- What is kept of both streams.
pub record Kept (start : ℕ) (begun : Sides) (w : Wire) : Type 0 where
  pub carried : Carried start begun w
  pub written : Written w.near w.written w.pushed
  pub read_out : ReadOut w.far w.output w.bytes_read

module _ (start : ℕ) (begun : Sides) (begins : Begins start begun) where
  -- A piece is refused only behind a FINISH.
  refused :
      (w : Wire) (n : ℕ) (e : IoError) (st : Wire.SendStorage)
      → Carried start begun w
      → w.near.conn_state ≡ ok tt
      → Wire.push_bytes w.near.send_storage (Wire.take n w.near.send_buffer) ≡ done (err e, st)
      → has_finish w.pushed ≡ true
  refused w n e st c live ran =
      let r = subst (λ q. Runs start begun (halves w q c.st)) (sym (c.sending live)) c.runs in
      refused-has_finish start begun (halves w w.near.send_storage c.st)
        (payload (piece n w.near.send_buffer)) e st begins r (payload_no_accept _)
        (pushed_bytes w.near.send_storage st _ (err e) ran)

  sends-Written :
      (w : Wire) {s : StreamInner} {note : SendNote}
      → Carried start begun w
      → w.near.conn_state ≡ ok tt
      → SendAtom w.near s note
      → Written w.near w.written w.pushed
      → Written s (note_send note w).written (note_send note w).pushed
  sends-Written w {s} c live (appends bytes) h =
      appended-Written w.near s w.written w.pushed h bytes live refl
  sends-Written w {s} c live (cuts n st ran) h =
      queued-Written w.near s w.written w.pushed h n live refl
  sends-Written w {s} c live (cut_refused n e st ran) h =
      over-Written w.near s w.written w.pushed h (refused w n e st c live ran)
  sends-Written w {s} c live (finishes st ran) h = finished-Written w.near s w.written w.pushed h
  sends-Written w {s} c live (finish_refused e st ran) h =
      same-Written w.near s w.written w.pushed h live refl
  sends-Written w {s} c live (settles empty) h =
      same-Written w.near s w.written w.pushed h live refl
  sends-Written w {s} c live (draws now i n v st ran) h =
      same-Written w.near s w.written w.pushed h live refl
  sends-Written w {s} c live (draws_none now st ran) h =
      same-Written w.near s w.written w.pushed h live refl
  sends-Written w {s} c live (hears i n r st ran) h =
      same-Written w.near s w.written w.pushed h live refl

  receives-ReadOut :
      (w : Wire) {s : StreamInner} {note : RecvNote}
      → RecvAtom w.far s note
      → ReadOut w.far w.output w.bytes_read
      → ReadOut s (note_recv note w).output (note_recv note w).bytes_read
  receives-ReadOut w {s} (Wire.arrives i n v r st ran) h =
      same-ReadOut w.far s w.output w.bytes_read h refl refl
  receives-ReadOut w {s} (takes v st empty more ran) h =
      let t = record w.far { recv_storage = st } in
      taken-ReadOut t w.output w.bytes_read v more
        (same-ReadOut w.far t w.output w.bytes_read h refl refl)
  receives-ReadOut w {s} (copies n) h = copied-ReadOut w.far s w.output w.bytes_read h n refl refl
  receives-ReadOut w {s} (Wire.answers now i n st ran) h =
      same-ReadOut w.far s w.output w.bytes_read h refl refl
  receives-ReadOut w {s} (Wire.is_quiet now st ran) h =
      same-ReadOut w.far s w.output w.bytes_read h refl refl

  pub Act-Kept : {w t : Wire} → Kept start begun w → Act start w t → Kept start begun t
  Act-Kept {w} k (near_sends {s} {note} live atom may) = record {
    carried = Act-Carried start begun k.carried (near_sends live atom may);
    written = sends-Written w k.carried live atom k.written;
    read_out = k.read_out;
  }
  Act-Kept {w} k (near_receives {s} live atom) = record {
    carried = Act-Carried start begun k.carried (near_receives live atom);
    written = same-Written w.near s w.written w.pushed k.written live (RecvAtom-send atom).buffer;
    read_out = k.read_out;
  }
  Act-Kept {w} k (near_fails e told) = record {
    carried = Act-Carried start begun k.carried (near_fails e told);
    written =
        failed-Written w.near _ w.written w.pushed k.written (error-Failed w.near e told).state;
    read_out = k.read_out;
  }
  Act-Kept {w} k (far_receives {s} {note} live atom may) = record {
    carried = Act-Carried start begun k.carried (far_receives live atom may);
    written = k.written;
    read_out = receives-ReadOut w atom k.read_out;
  }
  Act-Kept {w} k (far_sends {s} live atom) =
      let same = SendAtom-recv atom in
      record {
        carried = Act-Carried start begun k.carried (far_sends live atom);
        written = k.written;
        read_out = same-ReadOut w.far s w.output w.bytes_read k.read_out same.buffer same.finished;
      }
  Act-Kept {w} k (far_fails e told) =
      let same = error-Failed w.far e told in
      record {
        carried = Act-Carried start begun k.carried (far_fails e told);
        written = k.written;
        read_out = same-ReadOut w.far _ w.output w.bytes_read k.read_out same.buffer same.finished;
      }

  pub Acts-Kept : {w t : Wire} → Kept start begun w → Acts start w t → Kept start begun t
  Acts-Kept k here = k
  Acts-Kept k (next r a) = Act-Kept (Acts-Kept k r) a

-- The first of some segments have the first bytes.
pub before-first :
    (vs us : List SequentialSegment)
    → (more : List ℕ) × (bytes_before_finish (vs ++ us) ≡ bytes_before_finish vs ++ more)
before-first vs us = elim (Bool-cases (has_finish vs)) [
  | inl over ↦ ([], after-finish vs us over ∙ sym (append-nil (bytes_before_finish vs)))
  | inr more ↦ (bytes_before_finish us, before-append vs us more)
]
