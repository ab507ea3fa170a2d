-- ===== src/Recv/Bound.antt =====
-- stream/recv.rs: total correctness of `recv` against any peer, and where the lower bound stops.
use mdswp.Prelude.{
  ℕ, ◌+◌, ◌-◌, ◌%◌, ◌≤◌, ◌<◌, ◌≡◌, refl, ◌∙◌, ap, sym, subst, some, Option, inl, inr, arith, false,
  ltb, le→ltb, Bool-cases,
}
use mdswp.Util.{done, IoResult, ok, err, conn_invalid_seq_num}
use mdswp.Segment.{SequentialSegment}
use mdswp.Recv.{RecvStorage, recv, pop, pop_acknowledge}
use mdswp.Recv.Loops.{IsStored}
use mdswp.Recv.Track.{Tracks}
use mdswp.Recv.Order.{Tracks-same, pop_lem, pop_acknowledge_same}
use mdswp.Recv.Receive.{in_range, check_valid_lem, kept, slid}
use mdswp.Recv.Outcome.{Taken, refused, repeated, differing, fresh, recv_invalid, recv_lem}

-- Every segment fits.
abbrev pub Any : ℕ → SequentialSegment → Type 0
Any i v = Unit {0}

-- The storage is on track, whatever the peer has sent.
pub record IsValid (s : RecvStorage) : Type 0 where
  pub lo : ℕ
  pub w : ℕ
  pub tracks : Tracks Any lo w s

-- From a valid storage `recv` returns for every number and every segment: no index into the map
-- and no `unwrap` panics, each loop ends within 256 rounds, and the storage stays valid.
pub recv-IsValid :
    {s : RecvStorage} (n : ℕ) (v : SequentialSegment)
    → IsValid s
    → n < 256
    → (r : IoResult (Unit {0})) × (s' : RecvStorage) × (recv s n v ≡ done (r, s')) × IsValid s'
recv-IsValid {s} n v h small =
    at_position (h.lo + (n + 256 - h.lo % 256) % 256) (omega arith) (omega arith) (omega arith)
  where
    at_position :
        (i : ℕ)
        → h.lo ≤ i
        → i < h.lo + 256
        → i % 256 ≡ n
        → (r : IoResult (Unit {0})) × (s' : RecvStorage) × (recv s n v ≡ done (r, s')) × IsValid s'
    at_position i a b at =
        let (r, lo', w', s', ran, moved, taken) = recv_lem Any h.lo h.w i s v h.tracks tt a b in
        (
          r,
          s',
          subst (λ q. recv s q v ≡ done (r, s')) at ran,
          record { lo = lo'; w = w'; tracks = moved.tracks },
        )

-- Once the window is twenty or more ahead of the lower bound, no segment moves the lower bound.
Taken-far :
    (lo w i : ℕ) (s : RecvStorage) (v : SequentialSegment) {r : IoResult (Unit {0})} {lo' w' : ℕ}
    {s' : RecvStorage}
    → 20 ≤ w - lo
    → Taken lo w i s v r lo' w' s'
    → lo' ≡ lo
Taken-far lo w i s v far (refused a b c d e) = d
Taken-far lo w i s v far (repeated a b c d e f) = e
Taken-far lo w i s v far (differing u a b c d e f g) = f
Taken-far lo w i s v far (fresh a b c d (kept x y z)) = y
Taken-far lo w i s v far (fresh a b c d (slid x y z p q e)) = ground arith

-- One call on the storage, with a peer that sends anything.
pub data Serve (a b : RecvStorage) : Type 0 where
  gets :
      (n : ℕ) (v : SequentialSegment) (r : IoResult (Unit {0}))
      → n < 256
      → recv a n v ≡ done (r, b)
      → Serve a b
  pops : (v : SequentialSegment) → pop a ≡ (some v, b) → Serve a b
  acknowledges : (now : ℕ) (n : Option ℕ) → pop_acknowledge a now ≡ (n, b) → Serve a b

pub data Serves (a : RecvStorage) : RecvStorage → Type 0 where
  here : Serves a a
  next : {b c : RecvStorage} → Serves a b → Serve b c → Serves a c

-- On track from `lo`, with the window at least twenty ahead.
pub record Far (lo : ℕ) (s : RecvStorage) : Type 0 where
  pub w : ℕ
  pub tracks : Tracks Any lo w s
  pub far : 20 ≤ w - lo

gets-Far :
    (lo i : ℕ) (a b : RecvStorage) (v : SequentialSegment) (r : IoResult (Unit {0}))
    → Far lo a
    → lo ≤ i
    → i < lo + 256
    → recv a (i % 256) v ≡ done (r, b)
    → Far lo b
gets-Far lo i a b v r h x y ran =
    let (r', lo', w', s', ran', moved, taken) = recv_lem Any lo h.w i a v h.tracks tt x y in
    let same : s' ≡ b = cc in
    let stays = Taken-far lo h.w i a v h.far taken in
    record {
      w = w';
      tracks = subst (λ q. Tracks Any q w' b) stays (subst (Tracks Any lo' w') same moved.tracks);
      far = omega (arith, h.far, moved.forward);
    }

Serve-Far : (lo : ℕ) (a b : RecvStorage) → Far lo a → Serve a b → Far lo b
Serve-Far lo a b h (gets n v r small ran) =
    at_position (lo + (n + 256 - lo % 256) % 256) (omega arith) (omega arith) (omega arith)
  where
    at_position : (i : ℕ) → lo ≤ i → i < lo + 256 → i % 256 ≡ n → Far lo b
    at_position i x y at =
        gets-Far lo i a b v r h x y (subst (λ q. recv a q v ≡ done (r, b)) (sym at) ran)
Serve-Far lo a b h (pops v e) =
    let (q, segs, win, low) = pop_lem a v e in
    record { w = h.w; tracks = Tracks-same Any lo h.w segs win low h.tracks; far = h.far }
Serve-Far lo a b h (acknowledges now n e) =
    let (q, segs, win, low) = pop_acknowledge_same a now n e in
    record { w = h.w; tracks = Tracks-same Any lo h.w segs win low h.tracks; far = h.far }

Serves-Far : (lo : ℕ) {a b : RecvStorage} → Far lo a → Serves a b → Far lo b
Serves-Far lo h here = h
Serves-Far lo h (next r st) = Serve-Far lo _ _ (Serves-Far lo h r) st

-- The segments behind the window are all there, but for the one at the window.
abbrev pub HoldsAhead : RecvStorage → ℕ → Type 0
HoldsAhead s w = (j : ℕ) → w < j → j < w + 10 → IsStored s.segments j

slides_ten :
    (lo : ℕ) (s s' : RecvStorage) (v : SequentialSegment) {r : IoResult (Unit {0})} {lo' w' : ℕ}
    → Tracks Any lo (lo + 10) s
    → HoldsAhead s (lo + 10)
    → Taken lo (lo + 10) (lo + 10) s v r lo' w' s'
    → (lo' ≡ lo) × (w' ≡ lo + 20) × (r ≡ ok tt)
slides_ten lo s s' v t h (refused out b c d e) = absurd (ground arith)
slides_ten lo s s' v t h (repeated a b c d e f) = cc (t.vacant)
slides_ten lo s s' v t h (differing u a b c d e f g) = cc (t.vacant)
slides_ten lo s s' v t h (fresh a b c d (kept x y z)) = absurd (x refl)
slides_ten lo s s' v {w' = w'} t h (fresh a b c d (slid x y z p q e)) =
    elim (Bool-cases (ltb w' (lo + 20))) [
      | inl less ↦ let (u, full) = h w' y (ground arith) in cc
      | inr ge ↦ let at : w' ≡ lo + 20 = ground arith in (e ∙ rw at (ground arith), at, c)
    ]

-- A defect: when a full window of ten lies behind the window, and all of the next ten arrive with
-- the first of them last, the window slides by ten and the lower bound stays where it is. From then
-- on no call moves the lower bound, whatever the peer sends.
pub full_slide_stuck :
    (lo : ℕ) (s : RecvStorage) (v : SequentialSegment)
    → Tracks Any lo (lo + 10) s
    → HoldsAhead s (lo + 10)
    → (s' : RecvStorage) × (recv s ((lo + 10) % 256) v ≡ done (ok tt, s'))
      × (s'.window ≡ (lo + 20) % 256)
      × (s'.lower_bound ≡ lo % 256)
      × ((b : RecvStorage) → Serves s' b → b.lower_bound ≡ lo % 256)
full_slide_stuck lo s v t h =
    let (r, lo', w', s', ran, moved, taken) =
      recv_lem Any lo (lo + 10) (lo + 10) s v t tt (omega arith) (omega arith) in
    let (low, at, fine) = slides_ten lo s s' v t h taken in
    let tracks : Tracks Any lo w' s' = subst (λ q. Tracks Any q w' s') low moved.tracks in
    let far : Far lo s' = record { w = w'; tracks = tracks; far = omega arith } in
    (
      s',
      rw (← fine) ran,
      tracks.window_at ∙ ap (λ q. q % 256) at,
      tracks.lower_at,
      λ b r. (Serves-Far lo far r).tracks.lower_at,
    )

-- A defect: with the window 246 or more ahead of the lower bound, the very segment that the
-- receiver waits for is refused as out of range, and the storage stays as it is.
pub far_window_refused :
    (lo w : ℕ) (s : RecvStorage) (v : SequentialSegment)
    → Tracks Any lo w s
    → 246 ≤ w - lo
    → recv s (w % 256) v
      ≡ done (err (conn_invalid_seq_num (w % 256) (lo % 256) ((w + 10) % 256)), s)
far_window_refused lo w s v t h =
    let least : (w + 10 - lo) % 256 ≤ w - lo = omega (arith, t.within) in
    let off : in_range lo w w ≡ false = le→ltb (w - lo) ((w + 10 - lo) % 256) least in
    recv_invalid s (w % 256) v _
      (check_valid_lem Any lo w w s t t.ordered (omega (arith, t.within)) ∙ rw off)
