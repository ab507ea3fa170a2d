-- ===== src/Listener/Socket.antt =====
-- listener/inner.rs, stream/inner.rs, stream.rs and listener.rs: what is asked of the socket alone. The
-- socket of the standard library is a parameter, with a state of its own.
use mdswp.Prelude.{ℕ, ◌≡◌}
use mdswp.Util.{IoResult, ok}
use mdswp.Stream.{SocketAddr}

-- The calls of `UdpSocket` that set or read an option.
pub record UdpSocket (S : Type 0) : Type 0 where
  pub local_addr : S → IoResult SocketAddr
  pub ttl : S → IoResult ℕ
  pub set_ttl : S → ℕ → IoResult (Unit {0}) × S
  pub connect : S → SocketAddr → IoResult (Unit {0}) × S

module _ {S : Type 0} (udp : UdpSocket S) where
  -- `ListenerInner`
  unfoldable pub listener_local_addr : S → IoResult SocketAddr
  listener_local_addr socket = udp.local_addr socket

  unfoldable pub listener_ttl : S → IoResult ℕ
  listener_ttl socket = udp.ttl socket

  unfoldable pub listener_set_ttl : S → ℕ → IoResult (Unit {0}) × S
  listener_set_ttl socket ttl = udp.set_ttl socket ttl

  unfoldable pub connect_listener_to : S → SocketAddr → IoResult (Unit {0}) × S
  connect_listener_to socket addr = udp.connect socket addr

  -- `StreamInner`: the socket is that of its listener.
  unfoldable pub stream_ttl : S → IoResult ℕ
  stream_ttl socket = listener_ttl socket

  unfoldable pub stream_set_ttl : S → ℕ → IoResult (Unit {0}) × S
  stream_set_ttl socket ttl = listener_set_ttl socket ttl

  -- `MdswpListener`
  unfoldable pub handle_local_addr : S → IoResult SocketAddr
  handle_local_addr socket = listener_local_addr socket

  unfoldable pub handle_ttl : S → IoResult ℕ
  handle_ttl socket = listener_ttl socket

  unfoldable pub handle_set_ttl : S → ℕ → IoResult (Unit {0}) × S
  handle_set_ttl socket ttl = listener_set_ttl socket ttl

  -- `MdswpStream`
  unfoldable pub stream_handle_ttl : S → IoResult ℕ
  stream_handle_ttl socket = stream_ttl socket

  unfoldable pub stream_handle_set_ttl : S → ℕ → IoResult (Unit {0}) × S
  stream_handle_set_ttl socket ttl = stream_set_ttl socket ttl

  -- A stream and its listener share the socket: what is set on the stream is read on the listener, and
  -- on every stream of it, if the socket gives what was set.
  ttl_is_shared :
      ((s : S) (n : ℕ) → (udp.set_ttl s n).0 ≡ ok tt → udp.ttl (udp.set_ttl s n).1 ≡ ok n)
      → (s : S) (n : ℕ) → (stream_handle_set_ttl s n).0 ≡ ok tt
      → (handle_ttl (stream_handle_set_ttl s n).1 ≡ ok n)
        × (stream_handle_ttl (stream_handle_set_ttl s n).1 ≡ ok n)
  unfolding stream_handle_set_ttl stream_set_ttl listener_set_ttl handle_ttl stream_handle_ttl
      stream_ttl listener_ttl
  ttl_is_shared law s n e = (law s n e, law s n e)
