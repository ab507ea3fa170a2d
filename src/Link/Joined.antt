-- ===== src/Link/Joined.antt =====
-- stream/send.rs and stream/recv.rs together: what both sides agree on, and that each call keeps it.
use mdswp.Prelude.{
  ℕ, suc, ◌+◌, ◌%◌, ◌≤◌, ◌<◌, ◌≡◌, subst, inl, inr, List, [], ◌∷◌, length, All, arith,
}
use mdswp.Segment.{SequentialSegment}
use mdswp.Send.Track.{Outstanding}
use mdswp.Recv.{RecvStorage}
use mdswp.Recv.Loops.{IsFrom}
use mdswp.Recv.Track.{Tracks}
use mdswp.Recv.Order.{Receiver, received, window_position, InOrder}
use mdswp.Link.{In, Sides}

-- What the receiving half may hold at a position: what was sent there, from before `hi`.
abbrev pub Before : (ℕ → SequentialSegment) → ℕ → ℕ → SequentialSegment → Type 0
Before f hi i v = (v ≡ f i) × (i < hi)

abbrev pub IsPacket : (ℕ → SequentialSegment) → ℕ → ℕ × SequentialSegment → Type 0
IsPacket f hi (i, v) = Before f hi i v

-- An acknowledgement of what had come in before the position `w`.
abbrev pub IsAck : ℕ → ℕ × ℕ → Type 0
IsAck w (i, n) = (suc i ≤ w) × (n ≡ i % 256)

-- What the two sides agree on; `f` says what is pushed at each position.
pub record Joined (f : ℕ → SequentialSegment) (start : ℕ) (a : Sides) : Type 0 where
  pub lo : ℕ
  pub hi : ℕ
  pub outstanding : Outstanding f lo hi a.sender
  pub begun : start ≤ hi
  pub counted : hi + length a.sender.queue_unsent ≡ start + length a.pushed
  pub in_order : InOrder (Before f hi) f start a.receiver
  pub behind : lo ≤ window_position start a.receiver
  pub packets_sent : All (IsPacket f hi) a.packets
  pub acks_given : All (IsAck (window_position start a.receiver)) a.acks

IsFrom-map :
    (P Q : ℕ → SequentialSegment → Type 0)
    → ((i : ℕ) (v : SequentialSegment) → P i v → Q i v)
    → (k : ℕ) (vs : List SequentialSegment) → IsFrom P k vs
    → IsFrom Q k vs
IsFrom-map P Q g k [] h = tt
IsFrom-map P Q g k (v ∷ vs) h = (g k v h.0, IsFrom-map P Q g (suc k) vs h.1)

Tracks-map :
    (P Q : ℕ → SequentialSegment → Type 0)
    → ((i : ℕ) (v : SequentialSegment) → P i v → Q i v)
    → (lo w : ℕ) (s : RecvStorage) → Tracks P lo w s
    → Tracks Q lo w s
Tracks-map P Q g lo w s t = record {
  window_at = t.window_at;
  lower_at = t.lower_at;
  ordered = t.ordered;
  within = t.within;
  present = λ i a b. let (v, e, p) = t.present i a b in (v, e, g i v p);
  ahead = λ i v a b e. let (x, y, p) = t.ahead i v a b e in (x, y, g i v p);
  vacant = t.vacant;
}

-- More has been sent.
pub InOrder-later :
    (f : ℕ → SequentialSegment) (start hi hi' : ℕ) (b : Receiver)
    → hi ≤ hi'
    → InOrder (Before f hi) f start b
    → InOrder (Before f hi') f start b
InOrder-later f start hi hi' b h v =
    let g : (i : ℕ) (u : SequentialSegment) → Before f hi i u → Before f hi' i u =
      λ i u p. (p.0, omega (arith, p.1)) in
    record {
      lo = v.lo;
      tracks = Tracks-map (Before f hi) (Before f hi') g v.lo _ b.storage v.tracks;
      each = IsFrom-map (Before f hi) (Before f hi') g start (received b) v.each;
      order = v.order;
    }

pub packets-later :
    (f : ℕ → SequentialSegment) (hi hi' : ℕ) (ps : List (ℕ × SequentialSegment))
    → hi ≤ hi'
    → All (IsPacket f hi) ps
    → All (IsPacket f hi') ps
packets-later f hi hi' [] h v = tt
packets-later f hi hi' ((i, u) ∷ ps) h v =
    ((v.0.0, omega (arith, v.0.1)), packets-later f hi hi' ps h v.1)

pub acks-later : (w w' : ℕ) (ns : List (ℕ × ℕ)) → w ≤ w' → All (IsAck w) ns → All (IsAck w') ns
acks-later w w' [] h v = tt
acks-later w w' ((i, n) ∷ ns) h v = ((omega (arith, v.0.0), v.0.1), acks-later w w' ns h v.1)

pub All-In : {A : Type 0} (P : A → Type 0) (xs : List A) (x : A) → All P xs → In x xs → P x
All-In P [] x h place = absurd place
All-In P (y ∷ ys) x h (inl e) = subst P e h.0
All-In P (y ∷ ys) x h (inr place) = All-In P ys x h.1 place

pub IsFrom-below :
    (f : ℕ → SequentialSegment) (hi k : ℕ) (vs : List SequentialSegment)
    → k ≤ hi
    → IsFrom (Before f hi) k vs
    → k + length vs ≤ hi
IsFrom-below f hi k [] h v = omega arith
IsFrom-below f hi k (u ∷ vs) h v =
    let below : suc k + length vs ≤ hi = IsFrom-below f hi (suc k) vs (omega (arith, v.0.1)) v.1 in
    omega arith
