-- ===== src/Public.antt =====
-- stream.rs and listener.rs: what the crate gives to its users. A `MdswpStream` is a handle of a stream
-- that others may share, so the streams of a program stand in a store; each call is handed on to the
-- stream of the handle.
pub mod StreamHandle
pub mod ListenerHandle
use mdswp.Prelude.{ℕ, ◌==◌, if◌then◌else◌}
use mdswp.Util.{Run, done, ◌>>=◌}
use mdswp.Stream.{StreamInner}

abbrev pub Streams : Type 0
Streams = ℕ → StreamInner

-- `MdswpStream`, as the index of the stream that its `Arc` points to
pub record MdswpStream : Type 0 where
  pub inner : ℕ

abbrev pub put : Streams → MdswpStream → StreamInner → Streams
put streams h s j = if j == h.inner then s else streams j

-- A call that may change the stream of a handle.
abbrev pub through {ℓ} :
    {A : Type ℓ} → Streams → MdswpStream → (StreamInner → Run (A × StreamInner)) → Run (A × Streams)
through streams h call = call (streams h.inner) >>= λ p. done (p.0, put streams h p.1)
