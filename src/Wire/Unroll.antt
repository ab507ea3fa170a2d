-- ===== src/Wire/Unroll.antt =====
-- stream/inner.rs: the loops of `write` and `flush`, one round at a time.
use mdswp.Prelude.{
  ℕ, zero, suc, ◌≡◌, ◌≢◌, refl, List, ◌++◌, length, take, drop, min, ltb, if◌then◌else◌,
}
use mdswp.Util.{IoResult, ok, err, Run, done, panic, hang, ◌>>=◌}
use mdswp.Segment.{max_data_len}
use mdswp.Send.{SendStorage}
use mdswp.Stream.{
  StreamInner, push_bytes, write_loop, flush_loop, write, flush, stream_state, map_result,
  with_send,
}

abbrev pub LoopOut : Type 0
LoopOut = Run (IoResult (Unit {0}) × List ℕ × SendStorage)

-- What a loop makes of the result of a push: it ends, or it goes on.
abbrev pub after_piece :
    Run (IoResult (Unit {0}) × SendStorage) → List ℕ → (SendStorage → LoopOut) → LoopOut
after_piece (done (ok u, st)) left k = k st
after_piece (done (err e, st)) left k = done (err e, left, st)
after_piece panic left k = panic
after_piece hang left k = hang

pub write_unroll :
    (f : ℕ) (buf : List ℕ) (st : SendStorage) (x : Run (IoResult (Unit {0}) × SendStorage))
    → push_bytes st (take max_data_len buf) ≡ x
    → write_loop (suc f) buf st ≡ (
        if ltb (length buf) max_data_len
        then done (ok tt, buf, st)
        else after_piece x (drop max_data_len buf) (write_loop f (drop max_data_len buf)))
unfolding write_loop
write_unroll f buf st (done (ok u, st')) e = rw e refl
write_unroll f buf st (done (err x, st')) e = rw e refl
write_unroll f buf st panic e = rw e refl
write_unroll f buf st hang e = rw e refl

pub flush_unroll :
    (f : ℕ) (buf : List ℕ) (st : SendStorage) (x : Run (IoResult (Unit {0}) × SendStorage))
    → push_bytes st (take (min max_data_len (length buf)) buf) ≡ x
    → flush_loop (suc f) buf st ≡ (
        if ltb 0 (length buf)
        then after_piece x
            (drop (min max_data_len (length buf)) buf)
            (flush_loop f (drop (min max_data_len (length buf)) buf))
        else done (ok tt, buf, st))
unfolding flush_loop
flush_unroll f buf st (done (ok u, st')) e = rw e refl
flush_unroll f buf st (done (err x, st')) e = rw e refl
flush_unroll f buf st panic e = rw e refl
flush_unroll f buf st hang e = rw e refl

pub write_loop-zero :
    (buf : List ℕ) (st : SendStorage) (x : IoResult (Unit {0}) × List ℕ × SendStorage)
    → write_loop zero buf st ≢ done x
unfolding write_loop
write_loop-zero buf st x e = cc

pub flush_loop-zero :
    (buf : List ℕ) (st : SendStorage) (x : IoResult (Unit {0}) × List ℕ × SendStorage)
    → flush_loop zero buf st ≢ done x
unfolding flush_loop
flush_loop-zero buf st x e = cc

pub write_open :
    (s : StreamInner) (buf : List ℕ) (x : LoopOut)
    → s.conn_state ≡ ok tt
    → write_loop (suc (length (s.send_buffer ++ buf))) (s.send_buffer ++ buf) s.send_storage ≡ x
    → write s buf ≡ x >>= (λ p. done (map_result p.0 (length buf), with_send s p.1 p.2))
unfolding write stream_state
write_open s buf x live e = rw (live, e) refl

pub flush_open :
    (s : StreamInner) (x : LoopOut)
    → s.conn_state ≡ ok tt
    → flush_loop (suc (length s.send_buffer)) s.send_buffer s.send_storage ≡ x
    → flush s ≡ x >>= (λ p. done (p.0, with_send s p.1 p.2))
unfolding flush stream_state
flush_open s x live e = rw (live, e) refl
