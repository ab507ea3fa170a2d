-- ===== src/Segment/Tests.antt =====
-- segment.rs: conversions at given bytes.
use mdswp.Prelude.{◌≤◌, ◌≡◌, refl, ◌↔◌, [], ◌∷◌, arith, length}
use mdswp.Util.{ok, Message}
use mdswp.Segment.{
  DataSegment, Segment, sequential, payload, finish, into_bytes, try_from, invalid_input,
  max_segment_len,
}
use mdswp.Segment.Text.{codes, segment_text, sequential_text, first_bytes, len}
use mdswp.Segment.RoundTrip.{Fits, IsBytes, try_from_iff, into_bytes_bounds}

abbrev two_bytes : DataSegment
two_bytes = record { bytes = 7 ∷ 8 ∷ [] }

abbrev data_segment : Segment
data_segment = sequential 250 (payload two_bytes)

encoded : into_bytes data_segment ≡ 0x13 ∷ 250 ∷ 7 ∷ 8 ∷ []
unfolding into_bytes
encoded = refl

decoded : try_from (0x12 ∷ 3 ∷ []) ≡ ok (sequential 3 finish)
unfolding try_from
decoded = refl

no_data : try_from (0x13 ∷ 3 ∷ []) ≡ invalid_input Message.invalid_data
unfolding try_from
no_data = refl

long_reset : try_from (0 ∷ 3 ∷ []) ≡ invalid_input Message.invalid_reset
unfolding try_from
long_reset = refl

unknown : try_from (0x14 ∷ 3 ∷ []) ≡ invalid_input Message.unknown_type
unfolding try_from
unknown = refl

try_from_iff_example :
    (try_from (0x13 ∷ 250 ∷ 7 ∷ 8 ∷ []) ≡ ok data_segment)
    ↔ (Fits data_segment × (into_bytes data_segment ≡ 0x13 ∷ 250 ∷ 7 ∷ 8 ∷ []))
try_from_iff_example = try_from_iff (0x13 ∷ 250 ∷ 7 ∷ 8 ∷ []) data_segment

into_bytes_bounds_example :
    (1 ≤ length (into_bytes data_segment))
    × (length (into_bytes data_segment) ≤ max_segment_len)
    × IsBytes (into_bytes data_segment)
into_bytes_bounds_example = into_bytes_bounds data_segment (omega arith) (omega arith)

three_bytes :
    segment_text (sequential 3 (payload (record { bytes = 1 ∷ 20 ∷ 255 ∷ [] })))
    ≡ codes "DATA (seq_num: 3, data: <3 bytes> first 3 bytes: [1, 20, 255])"
unfolding segment_text first_bytes len
three_bytes = refl

twelve_bytes :
    sequential_text
      (payload (record { bytes = 1 ∷ 2 ∷ 3 ∷ 4 ∷ 5 ∷ 6 ∷ 7 ∷ 8 ∷ 9 ∷ 10 ∷ 11 ∷ 12 ∷ [] }))
    ≡ codes "DATA (12 bytes total, first 10 bytes: [1, 2, 3, 4, 5, 6, 7, 8, 9, 10])"
unfolding sequential_text first_bytes len
twelve_bytes = refl
