-- ===== src/Segment/RoundTrip.antt =====
-- segment.rs: `into_bytes` and `try_from` are inverse to each other on the segments that fit.
use mdswp.Prelude.{
  ℕ, ◌≤◌, ◌<◌, ◌≡◌, refl, ap, sym, subst, ◌↔◌, List, [], ◌∷◌, true, arith, length, All,
}
use mdswp.Util.{ok}
use mdswp.Segment.{
  SequentialSegment, accept, finish, payload, Segment, establish, reset, acknowledge, sequential,
  max_segment_len, max_data_len, into_bytes, try_from, bytes_eq, seg_eq,
}

-- What a `DataSegment` is made of: some bytes, and no more than a datagram carries.
abbrev pub FitsData : SequentialSegment → Type 0
FitsData (payload d) = (1 ≤ length d.bytes) × (length d.bytes ≤ max_data_len)
FitsData _ = Unit

abbrev pub Fits : Segment → Type 0
Fits (sequential n v) = FitsData v
Fits _ = Unit

pub try_from-into_bytes : (s : Segment) → Fits s → try_from (into_bytes s) ≡ ok s
unfolding try_from into_bytes
try_from-into_bytes (establish n) h = ground arith
try_from-into_bytes reset h = ground arith
try_from-into_bytes (acknowledge n) h = ground arith
try_from-into_bytes (sequential n accept) h = ground arith
try_from-into_bytes (sequential n finish) h = ground arith
try_from-into_bytes (sequential n (payload d)) h = ground arith

pub into_bytes-try_from :
    (bs : List ℕ) {s : Segment} → try_from bs ≡ ok s → Fits s × (into_bytes s ≡ bs)
unfolding try_from into_bytes
into_bytes-try_from [] h = ground arith
into_bytes-try_from (c ∷ []) h = ground arith
into_bytes-try_from (c ∷ n ∷ []) h = ground arith
into_bytes-try_from (c ∷ n ∷ b ∷ bs) h = ground arith

-- Conversion from bytes gives a segment exactly when the segment fits a datagram and its conversion
-- to bytes gives these bytes: nothing else is accepted, and no segment has two encodings.
pub try_from_iff :
    (bs : List ℕ) (s : Segment) → (try_from bs ≡ ok s) ↔ (Fits s × (into_bytes s ≡ bs))
try_from_iff bs s =
    (into_bytes-try_from bs, λ h. subst (λ b. try_from b ≡ ok s) h.1 (try_from-into_bytes s h.0))

-- The numbers and bytes of a segment are `u8`s.
abbrev pub IsBytes : List ℕ → Type 0
IsBytes = All (λ b. b < 256)

abbrev pub IsBytesData : SequentialSegment → Type 0
IsBytesData (payload d) = IsBytes d.bytes
IsBytesData _ = Unit

abbrev pub IsU8 : Segment → Type 0
IsU8 (establish n) = n < 256
IsU8 reset = Unit
IsU8 (acknowledge n) = n < 256
IsU8 (sequential n v) = (n < 256) × IsBytesData v

-- A segment that fits, with a number and data of `u8`s, is sent as one to 512 bytes, each below 256.
pub into_bytes_bounds :
    (s : Segment)
    → Fits s
    → IsU8 s
    → (1 ≤ length (into_bytes s))
      × (length (into_bytes s) ≤ max_segment_len)
      × IsBytes (into_bytes s)
unfolding into_bytes
into_bytes_bounds (establish n) f h = omega arith
into_bytes_bounds reset f h = omega arith
into_bytes_bounds (acknowledge n) f h = omega arith
into_bytes_bounds (sequential n accept) f h = omega arith
into_bytes_bounds (sequential n finish) f h = omega arith
into_bytes_bounds (sequential n (payload d)) f h =
    (omega arith, omega arith, (omega arith, (h.0, h.1)))

-- The segment that some bytes are converted to has a number and data of `u8`s.
into_bytes-IsU8 : (s : Segment) → IsBytes (into_bytes s) → IsU8 s
unfolding into_bytes
into_bytes-IsU8 (establish n) h = h.1.0
into_bytes-IsU8 reset h = tt
into_bytes-IsU8 (acknowledge n) h = h.1.0
into_bytes-IsU8 (sequential n accept) h = (h.1.0, tt)
into_bytes-IsU8 (sequential n finish) h = (h.1.0, tt)
into_bytes-IsU8 (sequential n (payload d)) h = (h.1.0, h.1.1)

pub try_from-IsU8 : (bs : List ℕ) (s : Segment) → IsBytes bs → try_from bs ≡ ok s → IsU8 s
try_from-IsU8 bs s h e = into_bytes-IsU8 s (subst IsBytes (sym (into_bytes-try_from bs e).1) h)

-- The derived equality of sequential segments decides equality.
pub bytes_eq_iff : (xs ys : List ℕ) → (bytes_eq xs ys ≡ true) ↔ (xs ≡ ys)
unfolding bytes_eq
bytes_eq_iff [] [] = (λ _. refl, λ _. refl)
bytes_eq_iff [] (y ∷ ys) = (λ e. cc, λ e. cc)
bytes_eq_iff (x ∷ xs) [] = (λ e. cc, λ e. cc)
bytes_eq_iff (x ∷ xs) (y ∷ ys) =
    let ih = bytes_eq_iff xs ys in (λ e. ground (arith, ih.0), λ e. ground (arith, ih.1))

pub seg_eq_iff : (s t : SequentialSegment) → (seg_eq s t ≡ true) ↔ (s ≡ t)
unfolding seg_eq
seg_eq_iff accept accept = (λ _. refl, λ _. refl)
seg_eq_iff accept finish = (λ e. cc, λ e. cc)
seg_eq_iff accept (payload d) = (λ e. cc, λ e. cc)
seg_eq_iff finish accept = (λ e. cc, λ e. cc)
seg_eq_iff finish finish = (λ _. refl, λ _. refl)
seg_eq_iff finish (payload d) = (λ e. cc, λ e. cc)
seg_eq_iff (payload d) accept = (λ e. cc, λ e. cc)
seg_eq_iff (payload d) finish = (λ e. cc, λ e. cc)
seg_eq_iff (payload d) (payload e) =
    let l = bytes_eq_iff d.bytes e.bytes in
    (λ h. ap payload (λ i. record { bytes = l.0 h i }), λ h. l.1 (ground arith))
