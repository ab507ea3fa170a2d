-- ===== src/Listener/Sound.antt =====
-- listener/inner.rs: a datagram reaches the stream of its sender and no other, whatever it holds.
use mdswp.Prelude.{
  ℕ, ◌+◌, ◌<◌, ◌≡◌, ◌≢◌, ◌∙◌, ap, sym, subst, ◌⊎◌, inl, inr, false, none, some, List, [], ◌∷◌, ◌++◌,
  ◌==◌, ==_false, arith, Bool-cases,
}
use mdswp.Segment.{Segment}
use mdswp.Stream.{SocketAddr, StreamInner}
use mdswp.Listener.{ListenerInner, set, new_listener}
use mdswp.Listener.Served.{IsServed}

-- Each connection has a stream of its own, which is that of its peer, in order and without error.
pub record IsSound (l : ListenerInner) : Type 0 where
  pub served :
      (a i : ℕ) (s : StreamInner) → l.connections a ≡ some i → l.streams i ≡ some s → IsServed a s
  pub distinct : (a b i : ℕ) → l.connections a ≡ some i → l.connections b ≡ some i → a ≡ b
  pub allocated : (a i : ℕ) → l.connections a ≡ some i → i < l.next_stream

pub new_listener-IsSound : IsSound new_listener
unfolding new_listener
new_listener-IsSound = record {
  served = λ a i s e f. cc;
  distinct = λ a b i e f. cc;
  allocated = λ a i e. cc;
}

-- A listener in which one stream is stored anew.
abbrev pub put : ListenerInner → ℕ → StreamInner → ListenerInner
put l i s = record l { streams = set l.streams i (some s) }

module _ (l : ListenerInner) (sound : IsSound l) (a i : ℕ) (at : l.connections a ≡ some i)
    (s' : StreamInner) where
  pub put-IsSound : IsServed a s' → IsSound (put l i s')
  put-IsSound v = record {
    served = λ b j t e f. elim (Bool-cases (j == i)) [
      | inl same ↦
          let where_at : j ≡ i = ground arith in
          let mine : s' ≡ t = ground arith in
          let owner : a ≡ b = sound.distinct a b i at (e ∙ ap some where_at) in
          subst (λ c. IsServed c t) owner (subst (IsServed a) mine v)
      | inr other ↦ sound.served b j t e (ground arith)
    ];
    distinct = sound.distinct;
    allocated = sound.allocated;
  }

  abbrev pub forgotten : List (SocketAddr × Segment) → ListenerInner
  forgotten out = record (put l i s') { connections = set l.connections a none; sent = out }

  kept_connection :
      (b j : ℕ) → set l.connections a none b ≡ some j → (b ≢ a) × (l.connections b ≡ some j)
  kept_connection b j e = elim (Bool-cases (b == a)) [
    | inl same ↦ absurd (ground arith)
    | inr other ↦ (λ q. ground arith, ground arith)
  ]

  pub forgotten-IsSound : (out : List (SocketAddr × Segment)) → IsSound (forgotten out)
  forgotten-IsSound out = record {
    served = λ b j t e f.
        let (differs, old) = kept_connection b j e in
        let elsewhere : (j == i) ≡ false =
          ==_false j i (λ q. differs (sound.distinct b a i (old ∙ ap some q) at)) in
        sound.served b j t old (ground arith);
    distinct =
        λ b c j e f. sound.distinct b c j (kept_connection b j e).1 (kept_connection c j f).1;
    allocated = λ b j e. sound.allocated b j (kept_connection b j e).1;
  }

module _ (l : ListenerInner) (sound : IsSound l) (a : ℕ) (s' : StreamInner) where
  -- A new stream under an index that is free.
  abbrev pub opened : ListenerInner
  opened = record (put l l.next_stream s') {
    connections = set l.connections a (some l.next_stream);
    next_stream = l.next_stream + 1;
    to_accept = l.to_accept ++ l.next_stream ∷ [];
  }

  new_connection :
      (b j : ℕ)
      → set l.connections a (some l.next_stream) b ≡ some j
      → ((b ≡ a) × (j ≡ l.next_stream)) ⊎ ((l.connections b ≡ some j) × (j < l.next_stream))
  new_connection b j e = elim (Bool-cases (b == a)) [
    | inl same ↦ inl (ground arith, ground arith)
    | inr other ↦
        let old : l.connections b ≡ some j = ground arith in inr (old, sound.allocated b j old)
  ]

  opened-distinct :
      (b c j : ℕ) → opened.connections b ≡ some j → opened.connections c ≡ some j → b ≡ c
  opened-distinct b c j e f = elim (new_connection b j e) [
    | inl (p, q) ↦ elim (new_connection c j f) [
      | inl (p', q') ↦ omega arith
      | inr (old, less) ↦ absurd (omega arith)
    ]
    | inr (old, less) ↦ elim (new_connection c j f) [
      | inl (p', q') ↦ absurd (omega arith)
      | inr (old', less') ↦ sound.distinct b c j old old'
    ]
  ]

  opened-IsServed :
      IsServed a s'
      → (b j : ℕ) (t : StreamInner) → opened.connections b ≡ some j
      → opened.streams j ≡ some t
      → IsServed b t
  opened-IsServed v b j t e f = elim (new_connection b j e) [
    | inl (p, q) ↦
        let mine : s' ≡ t = ground arith in
        subst (λ c. IsServed c t) (sym p) (subst (IsServed a) mine v)
    | inr (old, less) ↦ sound.served b j t old (ground arith)
  ]

  opened-allocated : (b j : ℕ) → opened.connections b ≡ some j → j < l.next_stream + 1
  opened-allocated b j e = elim (new_connection b j e) [
    | inl (p, q) ↦ omega arith
    | inr (old, less) ↦ omega arith
  ]

  pub opened-IsSound : IsServed a s' → IsSound opened
  opened-IsSound v = record {
    served = opened-IsServed v;
    distinct = opened-distinct;
    allocated = opened-allocated;
  }
