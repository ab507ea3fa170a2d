-- ===== src/Listener/Resets.antt =====
-- listener/inner.rs: a RESET of a sender that has no connection.
use mdswp.Prelude.{ℕ, ◌≡◌, refl, ◌∙◌, none, [], ◌∷◌, ◌++◌}
use mdswp.Util.{done}
use mdswp.Segment.{reset, into_bytes}
use mdswp.Segment.RoundTrip.{try_from-into_bytes}
use mdswp.Listener.{ListenerInner, apply_effect, stream_of, recv_unknown, recv_datagram}

abbrev answered : ListenerInner → ℕ → ListenerInner
answered l a = record l { sent = l.sent ++ (a, reset) ∷ [] }

reset_known :
    (l : ListenerInner) (a n : ℕ)
    → stream_of l a ≡ none
    → recv_datagram l (into_bytes reset) a n ≡ done (answered l a)
unfolding recv_datagram recv_unknown apply_effect
reset_known l a n e = rw (e, recv_datagram, try_from-into_bytes reset tt)

same_streams : (l : ListenerInner) (a b : ℕ) → stream_of (answered l a) b ≡ stream_of l b
unfolding stream_of
same_streams l a b = refl

-- A defect: a RESET of a sender without a connection is answered by a RESET to it, and the sender
-- has no connection after that either. Where neither of two listeners has a connection to the other,
-- the answer of each is again such a RESET for the other, so they go on for ever.
pub reset_is_answered :
    (l l' : ListenerInner) (a b n n' : ℕ)
    → stream_of l a ≡ none
    → stream_of l' b ≡ none
    → (m m' : ListenerInner) × (recv_datagram l (into_bytes reset) a n ≡ done m)
      × (m.sent ≡ l.sent ++ (a, reset) ∷ [])
      × (stream_of m a ≡ none)
      × (recv_datagram l' (into_bytes reset) b n' ≡ done m')
      × (m'.sent ≡ l'.sent ++ (b, reset) ∷ [])
      × (stream_of m' b ≡ none)
reset_is_answered l l' a b n n' e f = (
  answered l a,
  answered l' b,
  reset_known l a n e,
  refl,
  same_streams l a a ∙ e,
  reset_known l' b n' f,
  refl,
  same_streams l' b b ∙ f,
)
