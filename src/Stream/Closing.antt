-- ===== src/Stream/Closing.antt =====
-- stream/inner.rs: `finish_write`, in two parts with its wait between them, and the drop of a stream.
use mdswp.Prelude.{true, false, Option, none, some, List, [], if◌then◌else◌}
use mdswp.Util.{IoResult, ok, err, Run, done, panic, ◌>>=◌, clone_io_err}
use mdswp.Segment.{finish}
use mdswp.Send.{is_empty, push}
use mdswp.Stream.{
  StreamInner, Effect, error, is_err, flush, is_write_finished, is_read_finished, reset_stream,
}

-- FINISH is pushed; an error of that is the error of the stream, and it is returned.
unfoldable pub push_finish : StreamInner → Run (IoResult (Unit {0}) × StreamInner × List Effect)
push_finish s = push s.send_storage finish >>= λ p.
    let s' = record s { send_storage = p.1 } in
    elim p.0 [
      | ok _ ↦ done (ok tt, s', [])
      | err e ↦
          let (failed, effects) = error s' (clone_io_err e) true in done (err e, failed, effects)
    ]

-- `finish_write` up to its wait. With `ok` the call is now waiting.
unfoldable pub finish_write : StreamInner → Run (IoResult (Unit {0}) × StreamInner × List Effect)
finish_write s =
    flush s >>= λ p. elim p.0 [ err e ↦ done (err e, p.1, []) | ok _ ↦ push_finish p.1 ]

-- One look of the wait: it goes on, or it ends and the call returns `ok`.
unfoldable pub finish_wait : StreamInner → Option StreamInner
finish_wait s = if is_empty s.send_storage then some (record s { send_finished = true }) else none

-- `let _ = self.reset()`
abbrev reset_ignored : StreamInner → StreamInner × List Effect
reset_ignored s = let (r, s', effects) = reset_stream s in (s', effects)

-- `drop`: a stream that is not finished on both sides is reset. `unwrap` panics on an error.
unfoldable pub drop_stream : StreamInner → Run (StreamInner × List Effect)
drop_stream s = if is_err s then done (s, []) else elim (is_write_finished s) [
  | err e ↦ panic
  | ok false ↦ done (reset_ignored s)
  | ok true ↦ elim (is_read_finished s) [
    | err e ↦ panic
    | ok false ↦ done (reset_ignored s)
    | ok true ↦ done (s, [])
  ]
]
