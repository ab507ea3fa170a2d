-- ===== src/Public/StreamHandle.antt =====
-- stream.rs: `MdswpStream`.
use mdswp.Prelude.{ℕ, Bool, none, List}
use mdswp.Util.{IoError, IoResult, ok, err, Run, done, ◌>>=◌}
use mdswp.Stream.{SocketAddr, StreamInner, Effect}
use mdswp.Stream
use mdswp.Stream.Incoming
use mdswp.Stream.Closing
use mdswp.Listener.Connect
use mdswp.Public.{Streams, MdswpStream, put, through}

-- `Result::Ok(Self(..?))`: a new handle of the stream that is connected.
abbrev handle_of : IoResult ℕ → IoResult MdswpStream
handle_of (ok i) = ok (record { inner = i })
handle_of (err e) = err e

-- The results for the addresses are arguments, as they are for the inner `connect`.
unfoldable pub connect : List (IoResult ℕ) → IoError → IoResult MdswpStream
connect results last_err = handle_of (Connect.connect results last_err)

unfoldable pub connect_to : List (IoResult ℕ) → Run (IoResult MdswpStream)
connect_to attempts = Connect.connect_to attempts 3 none >>= λ r. done (handle_of r)

unfoldable pub peer_addr : Streams → MdswpStream → IoResult SocketAddr
peer_addr streams h = Stream.peer_addr_of (streams h.inner)

unfoldable pub stream_state : Streams → MdswpStream → IoResult (Unit {0})
stream_state streams h = Stream.stream_state (streams h.inner)

unfoldable pub is_err : Streams → MdswpStream → Bool
is_err streams h = Stream.is_err (streams h.inner)

unfoldable pub is_write_finished : Streams → MdswpStream → IoResult Bool
is_write_finished streams h = Stream.is_write_finished (streams h.inner)

unfoldable pub is_read_finished : Streams → MdswpStream → IoResult Bool
is_read_finished streams h = Stream.is_read_finished (streams h.inner)

unfoldable pub reset : Streams → MdswpStream → IoResult (Unit {0}) × Streams × List Effect
reset streams h =
    let (r, s, effects) = Stream.reset_stream (streams h.inner) in (r, put streams h s, effects)

-- `finish_write` up to its wait
unfoldable pub finish_write :
    Streams → MdswpStream → Run (IoResult (Unit {0}) × Streams × List Effect)
finish_write streams h =
    Closing.finish_write (streams h.inner) >>= λ p. done (p.0, put streams h p.1, p.2)

-- A second handle of the same stream.
unfoldable pub try_clone : Streams → MdswpStream → IoResult MdswpStream
unfolding stream_state
try_clone streams h = elim (stream_state streams h) [ ok _ ↦ ok h | err e ↦ err e ]

unfoldable pub read : Streams → MdswpStream → ℕ → Run (IoResult (List ℕ) × Streams)
read streams h size = through streams h (λ s. Incoming.read s size)

unfoldable pub write : Streams → MdswpStream → List ℕ → Run (IoResult ℕ × Streams)
write streams h buf = through streams h (λ s. Stream.write s buf)

unfoldable pub flush : Streams → MdswpStream → Run (IoResult (Unit {0}) × Streams)
flush streams h = through streams h Stream.flush

-- What the socket of the listener answers is a parameter.
unfoldable pub local_addr : Streams → MdswpStream → IoResult SocketAddr → IoResult SocketAddr
local_addr streams h answer = Stream.local_addr_of (streams h.inner) answer
