-- ===== src/Wire/Finishing.antt =====
-- stream/inner.rs: `finish_write`, up to its wait and in it, is a run of atoms.
use mdswp.Prelude.{ℕ, suc, length, ◌≡◌, refl, ◌∙◌, sym, ap, subst, true, List, [], append-nil}
use mdswp.Util.{IoError, IoResult, ok, err, Run, done, panic, hang, clone_io_err}
use mdswp.Segment.{finish}
use mdswp.Send.{SendStorage, push}
use mdswp.Stream.{StreamInner, Effect, error, flush, flush_loop, with_send}
use mdswp.Stream.Incoming.{read}
use mdswp.Stream.Closing.{push_finish, finish_write}
use mdswp.Wire.{Act, Wire, near_sends, near_fails, here, next, finishes, finish_refused}
use mdswp.Wire.Methods.{Ran, Acts-trans, flush-Ran}
use mdswp.Wire.Unroll.{flush_open, LoopOut}

flush_keeps :
    (s t : StreamInner) (r : IoResult (Unit {0}))
    → s.conn_state ≡ ok tt
    → flush s ≡ done (r, t)
    → t.conn_state ≡ ok tt
flush_keeps s t r live out = by_loop _ refl
  where
    by_loop :
        (x : LoopOut)
        → flush_loop (suc (length s.send_buffer)) s.send_buffer s.send_storage ≡ x
        → t.conn_state ≡ ok tt
    by_loop (done (a, b, st)) e =
        let end = sym (flush_open s _ live e) ∙ out in
        let same : with_send s b st ≡ t = cc end in subst (λ q. q.conn_state ≡ ok tt) same live
    by_loop panic e = let end = sym (flush_open s _ live e) ∙ out in cc
    by_loop hang e = let end = sym (flush_open s _ live e) ∙ out in cc

module _ (s : StreamInner) where
  finish_ok :
      (u : Unit {0}) (st : SendStorage)
      → push s.send_storage finish ≡ done (ok u, st)
      → push_finish s ≡ done (ok tt, record s { send_storage = st }, [])
  unfolding push_finish
  finish_ok u st e = rw e refl

  finish_err :
      (y : IoError) (st : SendStorage)
      → push s.send_storage finish ≡ done (err y, st)
      → push_finish s
        ≡ done (
          err y,
          (error (record s { send_storage = st }) (clone_io_err y) true).0,
          (error (record s { send_storage = st }) (clone_io_err y) true).1,
        )
  unfolding push_finish
  finish_err y st e = rw e refl

  finish_stops : push s.send_storage finish ≡ panic → push_finish s ≡ panic
  unfolding push_finish
  finish_stops e = rw e refl

  finish_hangs : push s.send_storage finish ≡ hang → push_finish s ≡ hang
  unfolding push_finish
  finish_hangs e = rw e refl

abbrev FinishOut : Type 0
FinishOut = Run (IoResult (Unit {0}) × StreamInner × List Effect)

module _ (s : StreamInner) where
  flushed_ok :
      (t : StreamInner) (u : Unit {0}) → flush s ≡ done (ok u, t) → finish_write s ≡ push_finish t
  unfolding finish_write
  flushed_ok t u e = rw e refl

  flushed_err :
      (t : StreamInner) (y : IoError)
      → flush s ≡ done (err y, t)
      → finish_write s ≡ done (err y, t, [])
  unfolding finish_write
  flushed_err t y e = rw e refl

  flushed_panic : flush s ≡ panic → finish_write s ≡ panic
  unfolding finish_write
  flushed_panic e = rw e refl

  flushed_hang : flush s ≡ hang → finish_write s ≡ hang
  unfolding finish_write
  flushed_hang e = rw e refl

same_end :
    {r q : IoResult (Unit {0})} {s t : StreamInner} {more effects : List Effect}
    → ◌≡◌ {A = FinishOut} (done (q, s, more)) (done (r, t, effects))
    → s ≡ t
same_end e = cc

module _ (start : ℕ) where
  then_runs :
      {w : Wire} {s t : StreamInner}
      → Ran start w s w.far [] []
      → ((u : Wire) → u.near ≡ s → Ran start u t u.far [] [])
      → Ran start w t w.far [] []
  then_runs {w} h g =
      let k = g h.later h.near_is in
      record {
        later = k.later;
        acts = Acts-trans start h.acts k.acts;
        near_is = k.near_is;
        far_is = k.far_is ∙ h.far_is;
        written_is = k.written_is ∙ append-nil h.later.written ∙ h.written_is;
        read_is = k.read_is ∙ append-nil h.later.bytes_read ∙ h.read_is;
      }

  pub one_act :
      {w t : Wire} {s : StreamInner}
      → Act start w t
      → t.near ≡ s
      → t.far ≡ w.far
      → t.written ≡ w.written
      → t.bytes_read ≡ w.bytes_read
      → Ran start w s w.far [] []
  one_act {w} {t} a near far written read = record {
    later = t;
    acts = next here a;
    near_is = near;
    far_is = far;
    written_is = written ∙ sym (append-nil w.written);
    read_is = read ∙ sym (append-nil w.bytes_read);
  }

  push_finish-Ran :
      (w : Wire) (t : StreamInner) (r : IoResult (Unit {0})) (effects : List Effect)
      → w.near.conn_state ≡ ok tt
      → push_finish w.near ≡ done (r, t, effects)
      → Ran start w t w.far [] []
  push_finish-Ran w t r effects live out = by_push _ refl
    where
      by_push :
          (x : Run (IoResult (Unit {0}) × SendStorage))
          → push w.near.send_storage finish ≡ x
          → Ran start w t w.far [] []
      by_push (done (ok u, st)) e =
          one_act (near_sends live (finishes st e) tt)
            (same_end (sym (finish_ok w.near u st e) ∙ out)) refl refl refl
      by_push (done (err y, st)) e =
          then_runs (one_act (near_sends live (finish_refused y st e) tt) refl refl refl refl)
            (λ u at.
              one_act (near_fails (clone_io_err y) true)
                (ap (λ q. (error q (clone_io_err y) true).0) at
                  ∙ same_end (sym (finish_err w.near y st e) ∙ out))
                refl refl refl)
      by_push panic e = let end = sym (finish_stops w.near e) ∙ out in cc
      by_push hang e = let end = sym (finish_hangs w.near e) ∙ out in cc

  pub finish_write-Ran :
      (w : Wire) (t : StreamInner) (r : IoResult (Unit {0})) (effects : List Effect)
      → w.near.conn_state ≡ ok tt
      → finish_write w.near ≡ done (r, t, effects)
      → Ran start w t w.far [] []
  finish_write-Ran w t r effects live out = by_flush _ refl
    where
      by_flush :
          (x : Run (IoResult (Unit {0}) × StreamInner))
          → flush w.near ≡ x
          → Ran start w t w.far [] []
      by_flush (done (ok u, s)) e = then_runs (flush-Ran start w (ok u) s live e) (λ v at.
          push_finish-Ran v t r effects
            (ap (λ q. q.conn_state) at ∙ flush_keeps w.near s (ok u) live e)
            (ap push_finish at ∙ sym (flushed_ok w.near s u e) ∙ out))
      by_flush (done (err y, s)) e =
          subst (λ q. Ran start w q w.far [] []) (same_end (sym (flushed_err w.near s y e) ∙ out))
            (flush-Ran start w (err y) s live e)
      by_flush panic e = let end = sym (flushed_panic w.near e) ∙ out in cc
      by_flush hang e = let end = sym (flushed_hang w.near e) ∙ out in cc
