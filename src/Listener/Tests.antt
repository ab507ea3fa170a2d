-- ===== src/Listener/Tests.antt =====
-- listener/inner.rs: a listener that one peer is connected to, and connections opened from here.
use mdswp.Prelude.{ℕ, ◌≡◌, ◌≢◌, refl, none, List, [], ◌∷◌, ◌++◌, arith}
use mdswp.Util.{IoResult, ok, err, done, interrupted, no_address}
use mdswp.Segment
use mdswp.Segment.{sequential, into_bytes}
use mdswp.Segment.RoundTrip.{try_from-into_bytes}
use mdswp.Stream.{new_by_peer, new_by_local}
use mdswp.Listener.{ListenerInner, new_listener, stream_of, recv_datagram}
use mdswp.Listener.Served.{IsServed, new_by_peer-IsServed}
use mdswp.Listener.Sound.{IsSound, new_listener-IsSound, opened, opened-IsSound}
use mdswp.Listener.Resets.{reset_is_answered}
use mdswp.Segment.{reset}
use mdswp.Listener.Rounds.{Rounded, listen_round-IsSound}
use mdswp.Listener.Datagram.{recv_datagram-IsSound}
use mdswp.Listener.Connect.{try_recv, Attempt, try_single_connect_to}
use mdswp.Prelude.{◌+◌, length, true, some}
use mdswp.Segment.{try_from, decode, instr_code_of, seq_num_of}
use mdswp.Stream.{peer_addr_of, stream_state}
use mdswp.Listener.{
  listen_round, listener_is_err, recv_unknown, open_connection, add_connection, accept_nonblocking,
}
use mdswp.Listener.Accept.{accept, InTurn, History, Turn, comes_in, looks_once, none_yet, turn}
use mdswp.Listener.Accepting.{new_history, accepts_in_order}
use mdswp.Listener.Connected.{IsIdle, connects}

-- The peer 7 has sent an ESTABLISH of number 3.
abbrev connected : ListenerInner
connected = opened new_listener new_listener-IsSound 7 (new_by_peer 7 3 5)

connected-IsSound : IsSound connected
connected-IsSound =
    opened-IsSound new_listener new_listener-IsSound 7 (new_by_peer 7 3 5)
      (new_by_peer-IsServed 7 3 5)

-- A datagram of the peer that is no segment.
recv_datagram-IsSound_example :
    (l' : ListenerInner) × (recv_datagram connected (200 ∷ 1 ∷ []) 7 9 ≡ done l')
    × IsSound l'
    × ((b : ℕ) → b ≢ 7 → stream_of l' b ≡ stream_of connected b)
recv_datagram-IsSound_example =
    recv_datagram-IsSound connected (200 ∷ 1 ∷ []) 7 9 connected-IsSound
      (omega arith, (omega arith, tt))

listen_round-IsSound_example : Rounded connected (ok (200 ∷ 1 ∷ [], 7)) 9
listen_round-IsSound_example =
    listen_round-IsSound connected (ok (200 ∷ 1 ∷ [], 7)) 9 connected-IsSound
      (omega arith, (omega arith, tt))

abbrev idle : ℕ × IoResult (List ℕ)
idle = (1000, err (record { kind = interrupted; message = no_address }))

idle-IsIdle : IsIdle idle
unfolding try_recv
idle-IsIdle = (omega arith, refl)

abbrev attempt : List (ℕ × IoResult (List ℕ)) → Attempt
attempt looks = record { bound = ok tt; told = ok tt; looks = looks; started = ok tt }

abbrev accept_bytes : List ℕ
accept_bytes = into_bytes (sequential 9 Segment.accept)

abbrev answered : Attempt
answered = attempt (idle ∷ (2000, ok accept_bytes) ∷ [])

connects_example :
    (try_single_connect_to 7 3 answered ≡ done (ok (new_by_local 7 3 9), []))
    × IsServed 7 (new_by_local 7 3 9)
unfolding into_bytes
connects_example =
    connects 7 3 9 answered (idle ∷ []) 2000 accept_bytes [] refl refl refl refl (idle-IsIdle, tt)
      (omega arith) (omega arith, (omega arith, tt))
      (try_from-into_bytes (sequential 9 Segment.accept) tt)

nobody : (a : ℕ) → stream_of new_listener a ≡ none
unfolding stream_of new_listener
nobody a = refl

reset_is_answered_example :
    (m m' : ListenerInner) × (recv_datagram new_listener (into_bytes reset) 7 0 ≡ done m)
    × (m.sent ≡ new_listener.sent ++ (7, reset) ∷ [])
    × (stream_of m 7 ≡ none)
    × (recv_datagram new_listener (into_bytes reset) 8 0 ≡ done m')
    × (m'.sent ≡ new_listener.sent ++ (8, reset) ∷ [])
    × (stream_of m' 8 ≡ none)
reset_is_answered_example =
    reset_is_answered new_listener new_listener 7 8 0 0 (nobody 7) (nobody 8)

-- An ESTABLISH of the peer 7, and the connection that is accepted then.
abbrev establish_bytes : List ℕ
establish_bytes = 1 ∷ 3 ∷ []

establishing : listen_round new_listener (ok (establish_bytes, 7)) 5 ≡ done (true, connected)
unfolding listen_round listener_is_err new_listener recv_datagram stream_of recv_unknown try_from
    decode instr_code_of seq_num_of open_connection add_connection
establishing = refl

abbrev accepted_one : ListenerInner
accepted_one = record connected { to_accept = [] }

accepting : accept_nonblocking connected ≡ (ok (some (0, 7)), accepted_one)
unfolding accept_nonblocking new_listener peer_addr_of stream_state new_by_peer
accepting = refl

abbrev after_establish : History
after_establish = record { listener = connected; opened = 7 ∷ []; given = [] }

abbrev after_accept : History
after_accept = record { listener = accepted_one; opened = 7 ∷ []; given = ok (0, 7) ∷ [] }

establishing_step : Turn new_history after_establish
unfolding listener_is_err new_listener stream_of try_from decode instr_code_of seq_num_of
establishing_step = comes_in (ok (establish_bytes, 7)) 5 true connected establishing

accepting_step : Turn after_establish after_accept
accepting_step = looks_once (ok (some (0, 7))) accepted_one accepting

accepts_in_order_example :
    InTurn 0 after_accept.given after_accept.opened
    × (length after_accept.given + length after_accept.listener.to_accept
        ≡ length after_accept.opened)
accepts_in_order_example = accepts_in_order (turn (turn none_yet establishing_step) accepting_step)

-- `accept` looks twice.
accept_waits :
    accept ((λ l. l) ∷ (λ l. connected) ∷ []) new_listener ≡ done (ok (0, 7), accepted_one)
unfolding accept accept_nonblocking new_listener peer_addr_of stream_state new_by_peer
accept_waits = refl
