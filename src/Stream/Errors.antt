-- ===== src/Stream/Errors.antt =====
-- stream/inner.rs: the errors of a stream, and what the listener's segments do to it.
use mdswp.Prelude.{ℕ, ◌≡◌, Bool, List, [], arith}
use mdswp.Util.{IoError, err, done}
use mdswp.Stream.{StreamInner, error, reset_stream, write, flush, is_read_finished}
use mdswp.Stream.Incoming.{read}

-- The first error of a stream is kept: a second one changes nothing and tells nobody.
pub error_once :
    (s : StreamInner) (e e' : IoError) (told told' : Bool)
    → error (error s e told).0 e' told' ≡ ((error s e told).0, [])
unfolding error
error_once s e e' told told' = ground arith

-- After an error `write`, `flush`, `read` and `reset` report it, with the same kind and text, and
-- leave the stream as it is; nothing is asked of the listener.
pub error_reported :
    (s : StreamInner) (e : IoError) (bytes : List ℕ) (size : ℕ)
    → s.conn_state ≡ err e
    → (write s bytes ≡ done (err e, s))
      × (flush s ≡ done (err e, s))
      × (read s size ≡ done (err e, s))
      × (reset_stream s ≡ (err e, s, []))
unfolding write flush read reset_stream is_read_finished
error_reported s e bytes size h = (ground arith, ground arith, ground arith, ground arith)
