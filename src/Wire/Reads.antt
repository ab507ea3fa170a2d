-- ===== src/Wire/Reads.antt =====
-- stream/inner.rs: a call of `read` that returns is a run of atoms.
use mdswp.Prelude.{
  ℕ, zero, suc, ◌≡◌, ◌≢◌, refl, ◌∙◌, sym, ap, ap₂, arith, subst, Bool, true, false, List, [], ◌∷◌,
  ◌++◌, length, take, drop, min, append-nil,
}
use mdswp.Util.{IoResult, ok, err, Run, done, panic, hang, conn_read_finished}
use mdswp.Segment.{SequentialSegment}
use mdswp.Stream.{StreamInner, is_read_finished, stream_state}
use mdswp.Stream.Incoming.{take_segment, read_loop, read}
use mdswp.Stream.Reading.{round_buffered, pop_head, round_waits, round_pops, round_ends, still_open}
use mdswp.Wire.{Wire, far_receives, here, next, takes, copies, note_recv, took, gave}
use mdswp.Wire.Carried.{taken-SameSend}
use mdswp.Wire.Methods.{Ran, Acts-trans}

read_loop-zero :
    (s : StreamInner) (x : IoResult (Unit {0}) × StreamInner) → read_loop zero s ≢ done x
unfolding read_loop
read_loop-zero s x e = cc

no_hang : {A : Type 0} (x : A) → hang ≢ done x
no_hang x e = cc

abbrev ReadOutcome : Type 0
ReadOutcome = Run (IoResult (Unit {0}) × StreamInner)

same_state :
    {r : IoResult (Unit {0})} {s t : StreamInner}
    → ◌≡◌ {A = ReadOutcome} (done (ok tt, s)) (done (r, t))
    → s ≡ t
same_state e = cc

abbrev pub given : IoResult (List ℕ) → List ℕ
given (ok bytes) = bytes
given (err e) = []

ended_read :
    (s : StreamInner) → s.conn_state ≡ ok tt → s.recv_finished ≡ true → is_read_finished s ≡ ok true
unfolding is_read_finished stream_state
ended_read s live over = ground arith

read_over :
    (s : StreamInner) (size : ℕ)
    → s.conn_state ≡ ok tt
    → s.recv_finished ≡ true
    → read s size ≡ done (err conn_read_finished, s)
unfolding read
read_over s size live over = cc (ended_read s live over)

-- What is done with the outcome of the loop.
abbrev copy_out : ℕ → ReadOutcome → Run (IoResult (List ℕ) × StreamInner)
copy_out size (done (ok u, s)) =
    let len = min (length s.recv_buffer) size in
    done (ok (take len s.recv_buffer), record s { recv_buffer = drop len s.recv_buffer })
copy_out size (done (err e, s)) = done (err e, s)
copy_out size panic = panic
copy_out size hang = hang

read_open :
    (s : StreamInner) (size : ℕ) (x : ReadOutcome)
    → s.conn_state ≡ ok tt
    → s.recv_finished ≡ false
    → read_loop (suc (suc (length s.recv_storage.pop_queue))) s ≡ x
    → read s size ≡ copy_out size x
unfolding read
read_open s size (done (ok u, t)) live more e = cc (still_open s (live, more))
read_open s size (done (err x, t)) live more e = cc (still_open s (live, more))
read_open s size panic live more e = cc (still_open s (live, more))
read_open s size hang live more e = cc (still_open s (live, more))

module _ (start : ℕ) where
  unmoved-Ran : (w : Wire) (s : StreamInner) → w.far ≡ s → Ran start w w.near s [] []
  unmoved-Ran w s e = record {
    later = w;
    acts = here;
    near_is = refl;
    far_is = e;
    written_is = sym (append-nil w.written);
    read_is = sym (append-nil w.bytes_read);
  }

  -- The loop has come to `s`, which has no error.
  abbrev Looking : Wire → StreamInner → Type 0
  Looking w s = Ran start w w.near s [] [] × (s.conn_state ≡ ok tt)

  unmoved : (w : Wire) (s : StreamInner) → w.far.conn_state ≡ ok tt → w.far ≡ s → Looking w s
  unmoved w s live e = (unmoved-Ran w s e, subst (λ q. q.conn_state ≡ ok tt) e live)

  read_loop-Ran :
      (f : ℕ) (w : Wire) (r : IoResult (Unit {0})) (s : StreamInner)
      → w.far.conn_state ≡ ok tt
      → read_loop f w.far ≡ done (r, s)
      → Looking w s
  read_loop-Ran zero w r s live out = absurd (read_loop-zero _ _ out)
  read_loop-Ran (suc f) w r s live out =
      by_state (λ u fine go. read_loop-Ran f u r s fine go) w.far.recv_buffer w.far.recv_finished
        w.far.recv_storage.pop_queue refl refl refl
    where
      by_state :
          ((u : Wire) → u.far.conn_state ≡ ok tt → read_loop f u.far ≡ done (r, s) → Looking u s)
          → (b : List ℕ) (over : Bool) (q : List SequentialSegment) → w.far.recv_buffer ≡ b
          → w.far.recv_finished ≡ over
          → w.far.recv_storage.pop_queue ≡ q
          → Looking w s
      by_state again (x ∷ b) over q e o p =
          unmoved w s live (same_state (sym (round_buffered f w.far x b e) ∙ out))
      by_state again [] true q e o p =
          unmoved w s live (same_state (sym (round_ends f w.far e live o) ∙ out))
      by_state again [] false [] e o p =
          absurd (no_hang (r, s) (sym (round_waits f w.far e (live, o) p) ∙ out))
      by_state again [] false (v ∷ q) e o p =
          let st = record w.far.recv_storage { pop_queue = q } in
          let atom = takes v st e o (pop_head w.far.recv_storage v q p) in
          let u =
            note_recv (took v)
              (record w { far = take_segment (record w.far { recv_storage = st }) v }) in
          let fine = (taken-SameSend (record w.far { recv_storage = st }) v).state ∙ live in
          let (h, still) = again u fine (sym (round_pops f w.far e (live, o) v q p) ∙ out) in
          (
            record {
              later = h.later;
              acts = Acts-trans start (next here (far_receives live atom tt)) h.acts;
              near_is = h.near_is;
              far_is = h.far_is;
              written_is = h.written_is;
              read_is = h.read_is;
            },
            still,
          )

  -- Bytes are copied out of the buffer.
  copied-Ran :
      (w : Wire) (t : StreamInner) (len : ℕ)
      → Looking w t
      → Ran start w w.near
          (record t { recv_buffer = drop len t.recv_buffer })
          []
          (take len t.recv_buffer)
  copied-Ran w t len (h, fine) =
      let u = h.later in
      record {
        later =
            note_recv (gave (take len u.far.recv_buffer))
              (record u { far = record u.far { recv_buffer = drop len u.far.recv_buffer } });
        acts = next h.acts (far_receives (ap (λ q. q.conn_state) h.far_is ∙ fine) (copies len) tt);
        near_is = h.near_is;
        far_is =
            ap {A = StreamInner} (λ q. record q { recv_buffer = drop len q.recv_buffer }) h.far_is;
        written_is = h.written_is;
        read_is =
            ap₂ (λ b q. b ++ take len q.recv_buffer) (h.read_is ∙ append-nil w.bytes_read) h.far_is;
      }

  results :
      {w : Wire} {r q : IoResult (List ℕ)} {s t : StreamInner}
      → Ran start w w.near s [] (given q)
      → ◌≡◌ {A = Run (IoResult (List ℕ) × StreamInner)} (done (q, s)) (done (r, t))
      → Ran start w w.near t [] (given r)
  results {w} {r} {q} {s} {t} h e =
      let same : s ≡ t = cc e in
      let same_result : q ≡ r = cc e in
      subst (λ z. Ran start w w.near t [] (given z)) same_result
        (subst (λ z. Ran start w w.near z [] (given q)) same h)

  -- `read` is a run of atoms: segments are taken, and bytes are copied out.
  pub read-Ran :
      (w : Wire) (size : ℕ) (r : IoResult (List ℕ)) (s : StreamInner)
      → w.far.conn_state ≡ ok tt
      → read w.far size ≡ done (r, s)
      → Ran start w w.near s [] (given r)
  read-Ran w size r s live out = by_over w.far.recv_finished refl
    where
      by_loop :
          (x : ReadOutcome)
          → w.far.recv_finished ≡ false
          → read_loop (suc (suc (length w.far.recv_storage.pop_queue))) w.far ≡ x
          → Ran start w w.near s [] (given r)
      by_loop (done (ok u, t)) o e =
          let h =
            copied-Ran w t (min (length t.recv_buffer) size) (read_loop-Ran _ w (ok u) t live e) in
          results h (sym (read_open w.far size _ live o e) ∙ out)
      by_loop (done (err x, t)) o e =
          results (read_loop-Ran _ w (err x) t live e).0
            (sym (read_open w.far size _ live o e) ∙ out)
      by_loop panic o e = let end = sym (read_open w.far size _ live o e) ∙ out in cc
      by_loop hang o e = let end = sym (read_open w.far size _ live o e) ∙ out in cc

      by_over : (over : Bool) → w.far.recv_finished ≡ over → Ran start w w.near s [] (given r)
      by_over true o = results (unmoved-Ran w w.far refl) (sym (read_over w.far size live o) ∙ out)
      by_over false o = by_loop _ o refl
