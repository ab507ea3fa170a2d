-- ===== src/Listener/Datagram.antt =====
-- listener/inner.rs: `__recv` of any datagram, on every branch.
use mdswp.Prelude.{
  ℕ, ◌≡◌, ◌≢◌, refl, ◌∙◌, ap, ◌⊎◌, inl, inr, true, false, Option, none, some, List, [], ◌∷◌, ◌++◌,
  ==_false, arith, Option-cases,
}
use mdswp.Util.{IoResult, ok, err, Run, done, ◌>>=◌}
use mdswp.Segment.{Segment, establish, reset, acknowledge, sequential, try_from}
use mdswp.Segment.RoundTrip.{IsBytes, IsU8, try_from-IsU8}
use mdswp.Stream.{SocketAddr, StreamInner, error, new_by_peer}
use mdswp.Stream.Incoming.{Outcome, recv_segment}
use mdswp.Listener.{
  ListenerInner, set, apply_effect, add_connection, stream_of, hand_over, recv_known,
  open_connection, recv_unknown, recv_datagram,
}
use mdswp.Listener.Served.{
  IsServed, Serves, kept, failed, error-Serves, recv_segment-Serves, new_by_peer-IsServed,
}
use mdswp.Listener.Sound.{
  IsSound, put, put-IsSound, forgotten, forgotten-IsSound, opened, opened-IsSound,
}

module _ (l : ListenerInner) where
  pub at_cases :
      (a : ℕ)
      → (stream_of l a ≡ none)
        ⊎ ((i : ℕ) × (s : StreamInner) × (l.connections a ≡ some i)
            × (l.streams i ≡ some s)
            × (stream_of l a ≡ some (i, s)))
  unfolding stream_of
  at_cases a = elim (Option-cases (l.connections a)) [
    | inl e ↦ inl (rw (e, stream_of))
    | inr (i, e) ↦ elim (Option-cases (l.streams i)) [
      | inl f ↦ inl (rw (e, f, stream_of))
      | inr (s, f) ↦ inr (i, s, e, f, rw (e, f, stream_of))
    ]
  ]

  -- Where neither a connection nor its stream is touched.
  untouched :
      (l' : ListenerInner) (b i : ℕ) (new : Option StreamInner)
      → l'.connections b ≡ l.connections b
      → l'.streams ≡ set l.streams i new
      → ((j : ℕ) → l.connections b ≡ some j → j ≢ i)
      → stream_of l' b ≡ stream_of l b
  unfolding stream_of
  untouched l' b i new e f other = elim (Option-cases (l.connections b)) [
    | inl g ↦ rw (e, g, stream_of)
    | inr (j, g) ↦ rw (e, g, f, ==_false j i (other j g), stream_of)
  ]

  -- What the sender `a` can cause.
  abbrev pub Contained : ℕ → ListenerInner → Type 0
  Contained a l' = IsSound l' × ((b : ℕ) → b ≢ a → stream_of l' b ≡ stream_of l b)

  module _ (sound : IsSound l) (a : ℕ) where
    put-Contained :
        (i : ℕ) (s' : StreamInner)
        → l.connections a ≡ some i
        → IsServed a s'
        → Contained a (put l i s')
    put-Contained i s' at v = (
      put-IsSound l sound a i at s' v,
      λ b differs.
          untouched (put l i s') b i (some s') refl refl
            (λ j e q. differs (sound.distinct b a i (e ∙ ap some q) at)),
    )

    forgotten-Contained :
        (i : ℕ) (s' : StreamInner) (out : List (SocketAddr × Segment))
        (at : l.connections a ≡ some i)
        → Contained a (forgotten l sound a i at s' out)
    forgotten-Contained i s' out at = (
      forgotten-IsSound l sound a i at s' out,
      λ b differs.
          untouched (forgotten l sound a i at s' out) b i (some s') (rw (==_false b a differs)) refl
            (λ j e q. differs (sound.distinct b a i (e ∙ ap some q) at)),
    )

    opened-Contained : (s' : StreamInner) → IsServed a s' → Contained a (opened l sound a s')
    opened-Contained s' v = (
      opened-IsSound l sound a s' v,
      λ b differs.
          untouched (opened l sound a s') b l.next_stream (some s') (rw (==_false b a differs)) refl
            (λ j e q. omega (arith, sound.allocated b j e)),
    )

    handed :
        (i : ℕ) (s : StreamInner) (out : Run Outcome)
        → l.connections a ≡ some i
        → Serves a out
        → (l' : ListenerInner) × ((out >>= λ p. done (hand_over l i p)) ≡ done l') × Contained a l'
    unfolding apply_effect
    handed i s out at (kept s' e v) = (put l i s', rw e, put-Contained i s' at v)
    handed i s out at (failed s' true e) =
        (_, rw e, forgotten-Contained i s' (l.sent ++ (a, reset) ∷ []) at)
    handed i s out at (failed s' false e) = (_, rw e, forgotten-Contained i s' l.sent at)

    -- The listener after a RESET to a sender that has no connection.
    answered-Contained : (out : List (SocketAddr × Segment)) → Contained a (record l { sent = out })
    unfolding stream_of
    answered-Contained out = (
      record { served = sound.served; distinct = sound.distinct; allocated = sound.allocated },
      λ b differs. refl,
    )

    recv_unknown-Contained : (n : ℕ) (r : IoResult Segment) → Contained a (recv_unknown l a n r)
    unfolding recv_unknown apply_effect open_connection add_connection
    recv_unknown-Contained n (ok (establish k)) =
        opened-Contained (new_by_peer a k n) (new_by_peer-IsServed a k n)
    recv_unknown-Contained n (ok reset) = answered-Contained _
    recv_unknown-Contained n (ok (acknowledge k)) = answered-Contained _
    recv_unknown-Contained n (ok (sequential k v)) = answered-Contained _
    recv_unknown-Contained n (err e) = answered-Contained _

    recv_known-Contained :
        (i : ℕ) (s : StreamInner) (r : IoResult Segment)
        → l.connections a ≡ some i
        → IsServed a s
        → ((v : Segment) → r ≡ ok v → IsU8 v)
        → (l' : ListenerInner) × (recv_known l i s r ≡ done l') × Contained a l'
    unfolding recv_known
    recv_known-Contained i s (ok v) at h small =
        handed i s (recv_segment s v) at (recv_segment-Serves a s v (small v refl) h)
    recv_known-Contained i s (err e) at h small =
        handed i s (done (error s e true)) at (error-Serves a s e true h)

pub recv_datagram_known :
    (l : ListenerInner) (bytes : List ℕ) (a n i : ℕ) (s : StreamInner)
    → stream_of l a ≡ some (i, s)
    → recv_datagram l bytes a n ≡ recv_known l i s (try_from bytes)
unfolding recv_datagram
recv_datagram_known l bytes a n i s e = rw (e, recv_datagram)

pub recv_datagram_unknown :
    (l : ListenerInner) (bytes : List ℕ) (a n : ℕ)
    → stream_of l a ≡ none
    → recv_datagram l bytes a n ≡ done (recv_unknown l a n (try_from bytes))
unfolding recv_datagram
recv_datagram_unknown l bytes a n e = rw (e, recv_datagram)

-- On a listener with `IsSound` `__recv` returns for a datagram of any bytes from any sender, with no panic
-- and no endless loop. The listener keeps `IsSound`, and what it has for any other sender, the stream
-- and its whole state, is unchanged.
pub recv_datagram-IsSound :
    (l : ListenerInner) (bytes : List ℕ) (a n : ℕ)
    → IsSound l
    → IsBytes bytes
    → (l' : ListenerInner) × (recv_datagram l bytes a n ≡ done l')
      × IsSound l'
      × ((b : ℕ) → b ≢ a → stream_of l' b ≡ stream_of l b)
recv_datagram-IsSound l bytes a n sound small = elim (at_cases l a) [
  | inl none_there ↦
      let (kept_sound, others) = recv_unknown-Contained l sound a n (try_from bytes) in
      (_, recv_datagram_unknown l bytes a n none_there, kept_sound, others)
  | inr (i, s, at, stored, found) ↦
      let (l', ran, contained) =
        recv_known-Contained l sound a i s (try_from bytes) at (sound.served a i s at stored)
          (λ v e. try_from-IsU8 bytes v small e) in
      (l', recv_datagram_known l bytes a n i s found ∙ ran, contained.0, contained.1)
]
