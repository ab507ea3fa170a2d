-- ===== src/Wire/Methods.antt =====
-- stream/inner.rs: a call of `write`, `flush` or `read` is a run of atoms.
use mdswp.Prelude.{
  ℕ, zero, suc, ◌≡◌, refl, ◌∙◌, sym, ap, ap₂, subst, inl, inr, List, [], ◌++◌, append-nil, length,
  take, drop, min, ltb, Bool-cases,
}
use mdswp.Util.{IoResult, ok, err, Run, done, panic, hang}
use mdswp.Segment.{max_data_len, payload}
use mdswp.Send.{SendStorage}
use mdswp.Stream.{StreamInner, push_bytes, write_loop, flush_loop, write, flush}
use mdswp.Wire.{
  Wire, near_sends, Acts, here, next, queued, piece, appends, cuts, cut_refused, note_send,
}
use mdswp.Wire.Unroll.{
  LoopOut, after_piece, flush_open, write_unroll, flush_unroll, write_loop-zero, flush_loop-zero,
  write_open,
}

-- From `w` the streams have come to `near` and `far`; `bytes` were given to `write`, and `read` has
-- given `out`.
pub record Ran (start : ℕ) (w : Wire) (near far : StreamInner) (bytes out : List ℕ) : Type 0 where
  pub later : Wire
  pub acts : Acts start w later
  pub near_is : later.near ≡ near
  pub far_is : later.far ≡ far
  pub written_is : later.written ≡ w.written ++ bytes
  pub read_is : later.bytes_read ≡ w.bytes_read ++ out

pub unmoved : (start : ℕ) (w : Wire) → Ran start w w.near w.far [] []
unmoved start w = record {
  later = w;
  acts = here;
  near_is = refl;
  far_is = refl;
  written_is = sym (append-nil w.written);
  read_is = sym (append-nil w.bytes_read);
}

module _ (start : ℕ) where
  pub Acts-trans : {w u t : Wire} → Acts start w u → Acts start u t → Acts start w t
  Acts-trans r here = r
  Acts-trans r (next q a) = next (Acts-trans r q) a

  -- One piece, and what comes behind it.
  piece-Ran :
      (w : Wire) (n : ℕ) (x : Run (IoResult (Unit {0}) × SendStorage)) (k : SendStorage → LoopOut)
      (r : IoResult (Unit {0})) (buf : List ℕ) (st : SendStorage)
      → w.near.conn_state ≡ ok tt
      → push_bytes w.near.send_storage (take n w.near.send_buffer) ≡ x
      → after_piece x (drop n w.near.send_buffer) k ≡ done (r, buf, st)
      → ((u : Wire)
          → u.near.conn_state ≡ ok tt
          → u.near.send_buffer ≡ drop n w.near.send_buffer
          → k u.near.send_storage ≡ done (r, buf, st)
          → Ran start u (record u.near { send_buffer = buf; send_storage = st }) u.far [] [])
      → Ran start w (record w.near { send_buffer = buf; send_storage = st }) w.far [] []
  piece-Ran w n (done (ok v, st')) k r buf st live e out g =
      let t = record w.near { send_buffer = drop n w.near.send_buffer; send_storage = st' } in
      let u = note_send (queued (payload (piece n w.near.send_buffer))) (record w { near = t }) in
      let act = near_sends live (cuts n st' e) tt in
      let h = g _ live refl out in
      record {
        later = h.later;
        acts = Acts-trans (next here act) h.acts;
        near_is = h.near_is;
        far_is = h.far_is;
        written_is = h.written_is;
        read_is = h.read_is;
      }
  piece-Ran w n (done (err v, st')) k r buf st live e out g =
      let same_buf : drop n w.near.send_buffer ≡ buf = cc out in
      let same_storage : st' ≡ st = cc out in
      record {
        later = record w {
          near = record w.near { send_buffer = drop n w.near.send_buffer; send_storage = st' };
        };
        acts = next here (near_sends live (cut_refused n v st' e) tt);
        near_is =
            ap₂ (λ b q. record w.near { send_buffer = b; send_storage = q }) same_buf same_storage;
        far_is = refl;
        written_is = sym (append-nil w.written);
        read_is = sym (append-nil w.bytes_read);
      }
  piece-Ran w n panic k r buf st live e out g = cc
  piece-Ran w n hang k r buf st live e out g = cc

  stopped-Ran :
      (w : Wire) (r : IoResult (Unit {0})) (buf : List ℕ) (st : SendStorage)
      → ◌≡◌ {A = LoopOut}
          (done (ok tt, w.near.send_buffer, w.near.send_storage))
          (done (r, buf, st))
      → Ran start w (record w.near { send_buffer = buf; send_storage = st }) w.far [] []
  stopped-Ran w r buf st out =
      let same_buf : w.near.send_buffer ≡ buf = cc out in
      let same_storage : w.near.send_storage ≡ st = cc out in
      record {
        later = w;
        acts = here;
        near_is =
            ap₂ (λ b q. record w.near { send_buffer = b; send_storage = q }) same_buf same_storage;
        far_is = refl;
        written_is = sym (append-nil w.written);
        read_is = sym (append-nil w.bytes_read);
      }

  write_loop-Ran :
      (f : ℕ) (w : Wire) (r : IoResult (Unit {0})) (buf : List ℕ) (st : SendStorage)
      → w.near.conn_state ≡ ok tt
      → write_loop f w.near.send_buffer w.near.send_storage ≡ done (r, buf, st)
      → Ran start w (record w.near { send_buffer = buf; send_storage = st }) w.far [] []
  write_loop-Ran zero w r buf st live out = absurd (write_loop-zero _ _ _ out)
  write_loop-Ran (suc f) w r buf st live out =
      let b = w.near.send_buffer in
      let e = write_unroll f b w.near.send_storage _ refl in
      elim (Bool-cases (ltb (length b) max_data_len)) [
        | inl short ↦ stopped-Ran w r buf st (sym (e ∙ rw short refl) ∙ out)
        | inr long ↦
            piece-Ran w max_data_len _ (write_loop f (drop max_data_len b)) r buf st live refl
              (sym (e ∙ rw long refl) ∙ out)
              (λ u fine left go.
                write_loop-Ran f u r buf st fine
                  (ap (λ q. write_loop f q u.near.send_storage) left ∙ go))
      ]

  flush_loop-Ran :
      (f : ℕ) (w : Wire) (r : IoResult (Unit {0})) (buf : List ℕ) (st : SendStorage)
      → w.near.conn_state ≡ ok tt
      → flush_loop f w.near.send_buffer w.near.send_storage ≡ done (r, buf, st)
      → Ran start w (record w.near { send_buffer = buf; send_storage = st }) w.far [] []
  flush_loop-Ran zero w r buf st live out = absurd (flush_loop-zero _ _ _ out)
  flush_loop-Ran (suc f) w r buf st live out =
      let b = w.near.send_buffer in
      let n = min max_data_len (length b) in
      let e = flush_unroll f b w.near.send_storage _ refl in
      elim (Bool-cases (ltb 0 (length b))) [
        | inl some_left ↦
            piece-Ran w n _ (flush_loop f (drop n b)) r buf st live refl
              (sym (e ∙ rw some_left refl) ∙ out)
              (λ u fine left go.
                flush_loop-Ran f u r buf st fine
                  (ap (λ q. flush_loop f q u.near.send_storage) left ∙ go))
        | inr none_left ↦ stopped-Ran w r buf st (sym (e ∙ rw none_left refl) ∙ out)
      ]

  -- `write` is a run of atoms: the bytes go to the buffer, and pieces to the storage.
  pub write-Ran :
      (w : Wire) (buf : List ℕ) (r : IoResult ℕ) (s : StreamInner)
      → w.near.conn_state ≡ ok tt
      → write w.near buf ≡ done (r, s)
      → Ran start w s w.far buf []
  write-Ran w buf r s live out = by_loop _ refl
    where
      by_loop :
          (x : LoopOut)
          → write_loop
              (suc (length (w.near.send_buffer ++ buf)))
              (w.near.send_buffer ++ buf)
              w.near.send_storage
            ≡ x
          → Ran start w s w.far buf []
      by_loop (done (r', b, st)) e =
          let u = record w {
            near = record w.near { send_buffer = w.near.send_buffer ++ buf };
            written = w.written ++ buf;
          } in
          let h = write_loop-Ran _ u r' b st live e in
          let end = sym (write_open w.near buf _ live e) ∙ out in
          let same : record w.near { send_buffer = b; send_storage = st } ≡ s = cc end in
          record {
            later = h.later;
            acts = Acts-trans (next here (near_sends live (appends buf) tt)) h.acts;
            near_is = h.near_is ∙ same;
            far_is = h.far_is;
            written_is = h.written_is ∙ append-nil (w.written ++ buf);
            read_is = h.read_is;
          }
      by_loop panic e = let end = sym (write_open w.near buf _ live e) ∙ out in cc
      by_loop hang e = let end = sym (write_open w.near buf _ live e) ∙ out in cc

  pub flush-Ran :
      (w : Wire) (r : IoResult (Unit {0})) (s : StreamInner)
      → w.near.conn_state ≡ ok tt
      → flush w.near ≡ done (r, s)
      → Ran start w s w.far [] []
  flush-Ran w r s live out = by_loop _ refl
    where
      by_loop :
          (x : LoopOut)
          → flush_loop (suc (length w.near.send_buffer)) w.near.send_buffer w.near.send_storage ≡ x
          → Ran start w s w.far [] []
      by_loop (done (r', b, st)) e =
          let h = flush_loop-Ran _ w r' b st live e in
          let end = sym (flush_open w.near _ live e) ∙ out in
          let same : record w.near { send_buffer = b; send_storage = st } ≡ s = cc end in
          subst (λ q. Ran start w q w.far [] []) same h
      by_loop panic e = let end = sym (flush_open w.near _ live e) ∙ out in cc
      by_loop hang e = let end = sym (flush_open w.near _ live e) ∙ out in cc
