-- ===== src/Wire/Hosted.antt =====
-- listener/inner.rs and stream/inner.rs: a datagram that comes to a listener, at a stream of a wire.
use mdswp.Prelude.{
  ℕ, ◌<◌, ◌≡◌, refl, ◌∙◌, sym, ap, ◌⊎◌, inl, inr, true, none, some, List, [], ◌∷◌, ◌++◌, ◌==◌,
  ==_iff, ==_false, arith, Bool-cases,
}
use mdswp.Util.{IoError, IoResult, ok, err, Run, done, panic, hang}
use mdswp.Segment.{Segment, establish, reset, acknowledge, sequential, try_from}
use mdswp.Stream.{StreamInner, Effect, remove_connection, send_to, error}
use mdswp.Stream.Incoming.{Outcome, recv_segment}
use mdswp.Listener.{
  ListenerInner, set, apply_effect, apply_effects, add_connection, hand_over, recv_known,
  open_connection, recv_unknown, recv_datagram,
}
use mdswp.Listener.Datagram.{at_cases, recv_datagram_known, recv_datagram_unknown}

apply_effects-streams :
    (es : List Effect) (l : ListenerInner) → (apply_effects l es).streams ≡ l.streams
unfolding apply_effect
apply_effects-streams [] l = refl
apply_effects-streams (remove_connection a ∷ es) l =
    apply_effects-streams es (record l { connections = set l.connections a none })
apply_effects-streams (send_to a v ∷ es) l =
    apply_effects-streams es (record l { sent = l.sent ++ (a, v) ∷ [] })

-- What becomes of one stream of a listener at a datagram of the sender `b`.
pub data Heard (l : ListenerInner) (b i : ℕ) (bytes : List ℕ) (t s : StreamInner) : Type 0 where
  unheard : t ≡ s → Heard l b i bytes t s
  takes_segment :
      (segment : Segment) (effects : List Effect)
      → l.connections b ≡ some i
      → try_from bytes ≡ ok segment
      → recv_segment t segment ≡ done (s, effects)
      → Heard l b i bytes t s
  fails : (e : IoError) → (error t e true).0 ≡ s → Heard l b i bytes t s

module _ (l l' : ListenerInner) (b n i : ℕ) (bytes : List ℕ) (t s : StreamInner)
    (stored : l.streams i ≡ some t) (old : i < l.next_stream) where
  same_stream : l'.streams i ≡ some s → l'.streams i ≡ l.streams i → t ≡ s
  same_stream after same = cc

  by_unknown : (r : IoResult Segment) → recv_unknown l b n r ≡ l' → l'.streams i ≡ some s → t ≡ s
  unfolding recv_unknown apply_effect open_connection add_connection
  by_unknown (ok (establish k)) e after =
      same_stream after (
        ap (λ q. q.streams i) (sym e)
        ∙ rw (==_false i l.next_stream (λ q. omega (arith, old))) refl)
  by_unknown (ok reset) e after = same_stream after (ap (λ q. q.streams i) (sym e))
  by_unknown (ok (acknowledge k)) e after = same_stream after (ap (λ q. q.streams i) (sym e))
  by_unknown (ok (sequential k v)) e after = same_stream after (ap (λ q. q.streams i) (sym e))
  by_unknown (err x) e after = same_stream after (ap (λ q. q.streams i) (sym e))

  -- The stream at `k` was handed something.
  handed_at :
      (k : ℕ) (p : Outcome)
      → hand_over l k p ≡ l'
      → l'.streams i ≡ some s
      → ((i ≡ k) × (p.0 ≡ s)) ⊎ (t ≡ s)
  handed_at k p e after =
      let streams : l'.streams i ≡ set l.streams k (some p.0) i =
        ap (λ q. q.streams i) (sym e) ∙ ap (λ q. q i) (apply_effects-streams p.1 _) in
      elim (Bool-cases (i == k)) [
        | inl hit ↦ let at = rw hit at streams in inl ((==_iff i k).0 hit, cc (at, after))
        | inr miss ↦ let at = rw miss at streams in inr (same_stream after at)
      ]

  by_known :
      (k : ℕ) (u : StreamInner)
      → l.connections b ≡ some k
      → l.streams k ≡ some u
      → (r : IoResult Segment) → try_from bytes ≡ r
      → recv_known l k u r ≡ done l'
      → l'.streams i ≡ some s
      → Heard l b i bytes t s
  unfolding recv_known
  by_known k u at here (err e) decoded ran after =
      elim (handed_at k (error u e true) (cc ran) after) [
        | inr other ↦ unheard other
        | inl (hit, same) ↦
            let own : u ≡ t = cc (here, stored, ap l.streams hit) in
            fails e (ap (λ q. (error q e true).0) (sym own) ∙ same)
      ]
  by_known k u at here (ok segment) decoded ran after = by_result (recv_segment u segment) refl
    where
      by_result : (x : Run Outcome) → recv_segment u segment ≡ x → Heard l b i bytes t s
      by_result (done p) e = elim (handed_at k p (cc (rw e at ran)) after) [
        | inr other ↦ unheard other
        | inl (hit, same) ↦
            let own : u ≡ t = cc (here, stored, ap l.streams hit) in
            takes_segment segment p.1 (at ∙ ap some (sym hit)) decoded
              (ap (λ q. recv_segment q segment) (sym own) ∙ e ∙ ap (λ q. done (q, p.1)) same)
      ]
      by_result panic e = let stopped = rw e at ran in cc
      by_result hang e = let stopped = rw e at ran in cc

  -- A datagram leaves the stream alone, or hands it a segment of its peer, or makes it fail.
  pub hears_datagram :
      recv_datagram l bytes b n ≡ done l' → l'.streams i ≡ some s → Heard l b i bytes t s
  hears_datagram ran after = elim (at_cases l b) [
    | inl none_there ↦
        let end = sym (recv_datagram_unknown l bytes b n none_there) ∙ ran in
        unheard (by_unknown (try_from bytes) (cc end) after)
    | inr (k, u, at, here, found) ↦
        by_known k u at here (try_from bytes) refl
          (sym (recv_datagram_known l bytes b n k u found) ∙ ran) after
  ]
