-- ===== src/Listener/Bind.antt =====
-- listener/inner.rs: how a listener is made. What the socket answers is a parameter.
use mdswp.Prelude.{Bool, true, false, if◌then◌else◌}
use mdswp.Util.{IoResult, ok, err}
use mdswp.Stream.{SocketAddr}
use mdswp.Listener.{ListenerInner, new_listener}

-- `_start_thread`, from what `set_nonblocking` answers; the thread runs from then on.
unfoldable pub start_thread : IoResult (Unit {0}) → IoResult (Unit {0})
start_thread (ok _) = ok tt
start_thread (err e) = err e

-- `__new`
unfoldable pub new_of_socket : IoResult (Unit {0}) → Bool → IoResult ListenerInner
new_of_socket blocking false = ok new_listener
new_of_socket blocking true = elim (start_thread blocking) [
  | err e ↦ err e
  | ok _ ↦ ok new_listener
]

-- `bind`: the socket is bound, and the thread started.
unfoldable pub bind : IoResult (Unit {0}) → IoResult (Unit {0}) → IoResult ListenerInner
bind (err e) blocking = err e
bind (ok _) blocking = new_of_socket blocking true

-- The standard library's addresses: whether one is of IPv4, and the unspecified ones, of port 0.
module _ (is_v4 : SocketAddr → Bool) (v4_unspecified v6_unspecified : SocketAddr) where
  unfoldable pub sock_addr_v4_any : SocketAddr
  sock_addr_v4_any = v4_unspecified

  unfoldable pub sock_addr_v6_any : SocketAddr
  sock_addr_v6_any = v6_unspecified

  -- `_new_for_single`: a socket of the kind of the peer's address that talks to the peer only. Its
  -- thread is not started.
  unfoldable pub new_for_single :
      (SocketAddr → IoResult (Unit {0}))
      → (SocketAddr → IoResult (Unit {0}))
      → IoResult (Unit {0})
      → SocketAddr
      → IoResult ListenerInner
  new_for_single bind_to connect_to blocking peer_addr =
      elim (bind_to (if is_v4 peer_addr then sock_addr_v4_any else sock_addr_v6_any)) [
        | err e ↦ err e
        | ok _ ↦ elim (connect_to peer_addr) [ err e ↦ err e | ok _ ↦ new_of_socket blocking false ]
      ]
