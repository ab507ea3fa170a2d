-- ===== src/Wire/Opened.antt =====
-- listener/inner.rs and stream/inner.rs: a connection of the listener of one side, from its handshake on.
use mdswp.Prelude.{ℕ, ◌≡◌, refl, subst, false, none, some, List, [], ◌∷◌, arith}
use mdswp.Util.{IoResult, ok, err, done, interrupted, no_address, conn_reset_by_peer}
use mdswp.Segment.{Segment, reset, sequential, accept, into_bytes, try_from}
use mdswp.Segment.RoundTrip.{try_from-into_bytes}
use mdswp.Stream.{StreamInner, error, new_by_local, new_by_peer}
use mdswp.Stream.Incoming.{recv_segment}
use mdswp.Listener.{
  ListenerInner, new_listener, stream_of, recv_datagram, recv_known, hand_over, apply_effect,
}
use mdswp.Listener.Served.{new_by_peer-IsServed}
use mdswp.Listener.Sound.{new_listener-IsSound, opened, opened-IsSound}
use mdswp.Listener.Connect.{try_recv, Attempt}
use mdswp.Listener.Connected.{IsIdle}
use mdswp.Wire.{Wire, here, joined_streams}
use mdswp.Wire.Calls.{MayGet}
use mdswp.Wire.Methods.{Ran}
use mdswp.Wire.Whole.{forth}
use mdswp.Wire.Datagrams.{Hosts, at_far, datagrams_refine}
use mdswp.Wire.Handshake.{Connects, handshake}

abbrev idle : ℕ × IoResult (List ℕ)
idle = (1000, err (record { kind = interrupted; message = no_address }))

idle-IsIdle : IsIdle idle
unfolding try_recv
idle-IsIdle = (omega arith, refl)

abbrev attempt : Attempt
attempt = record {
  bound = ok tt;
  told = ok tt;
  looks = idle ∷ (2000, ok (into_bytes (sequential 5 accept))) ∷ [];
  started = ok tt;
}

unknown : stream_of new_listener 7 ≡ none
unfolding stream_of new_listener
unknown = refl

handshake_example : Connects (λ v. ok tt) new_listener 1 7 3 5 900 attempt
handshake_example =
    handshake (λ v. ok tt) new_listener 1 7 3 5 900 attempt (idle ∷ []) [] 2000 unknown
      (omega arith) refl refl refl refl refl (idle-IsIdle, tt) (omega arith)

-- The listener with the connection, and the two streams.
abbrev connected : ListenerInner
connected = opened new_listener new_listener-IsSound 7 (new_by_peer 7 3 5)

abbrev streams : Wire
streams = joined_streams (new_by_local 1 3 5) (new_by_peer 7 3 5)

hosted : Hosts connected 0 streams.far
unfolding new_listener
hosted = record {
  sound =
      opened-IsSound new_listener new_listener-IsSound 7 (new_by_peer 7 3 5)
        (new_by_peer-IsServed 7 3 5);
  old = omega arith;
  stored = refl;
}

-- A RESET of the peer comes to the listener.
abbrev failed : StreamInner
failed = (error (new_by_peer 7 3 5) conn_reset_by_peer false).0

abbrev after_reset : ListenerInner
after_reset = hand_over connected 0 (error (new_by_peer 7 3 5) conn_reset_by_peer false)

resets : recv_datagram connected (into_bytes reset) 7 0 ≡ done after_reset
unfolding new_listener stream_of recv_known recv_datagram into_bytes try_from recv_segment
resets = refl

is_failed : after_reset.streams 0 ≡ some failed
unfolding new_listener error new_by_peer apply_effect
is_failed = refl

may_get : (v : Segment) → try_from (into_bytes reset) ≡ ok v → MayGet 4 streams v
may_get v decoded =
    let same : reset ≡ v = cc (decoded, try_from-into_bytes reset tt) in
    subst (MayGet 4 streams) same tt

datagrams_refine_example : Ran 4 streams streams.near failed [] []
datagrams_refine_example = datagrams_refine (forth 1 7 3 5) here (
    at_far connected after_reset (into_bytes reset) 7 0 0 failed hosted
      (λ v at decoded. may_get v decoded) resets is_failed)
