-- ===== src/Segment.antt =====
-- segment.rs: the segments, their bytes and the two conversions. A byte is a number below 256.
pub mod RoundTrip
pub mod Text
mod Tests
use mdswp.Prelude.{
  ℕ, ◌+◌, ◌-◌, Bool, true, false, ◌&&◌, Option, none, some, List, [], ◌∷◌, length, ltb, ◌==◌,
  if◌then◌else◌,
}
use mdswp.Util.{ErrorKind, Message, IoResult, ok, err}

abbrev pub max_segment_len : ℕ
max_segment_len = 512

abbrev pub max_data_len : ℕ
max_data_len = max_segment_len - (1 + 1)

abbrev pub instr_code_reset : ℕ
instr_code_reset = 0x00

abbrev pub instr_code_establish : ℕ
instr_code_establish = 0x01

abbrev pub instr_code_acknowledge : ℕ
instr_code_acknowledge = 0x10

abbrev pub instr_code_accept : ℕ
instr_code_accept = 0x11

abbrev pub instr_code_finish : ℕ
instr_code_finish = 0x12

abbrev pub instr_code_data : ℕ
instr_code_data = 0x13

pub record DataSegment : Type 0 where
  pub bytes : List ℕ

-- `Data { data }` is `payload`: `data` is a reserved word.
pub data SequentialSegment : Type 0 where
  accept finish : SequentialSegment
  payload : DataSegment → SequentialSegment

pub data Segment : Type 0 where
  establish : ℕ → Segment
  reset : Segment
  acknowledge : ℕ → Segment
  sequential : ℕ → SequentialSegment → Segment

-- The derived `PartialEq`.
unfoldable pub bytes_eq : List ℕ → List ℕ → Bool
bytes_eq [] [] = true
bytes_eq [] (y ∷ ys) = false
bytes_eq (x ∷ xs) [] = false
bytes_eq (x ∷ xs) (y ∷ ys) = x == y && bytes_eq xs ys

unfoldable pub seg_eq : SequentialSegment → SequentialSegment → Bool
unfolding bytes_eq
seg_eq accept accept = true
seg_eq finish finish = true
seg_eq (payload d) (payload e) = bytes_eq d.bytes e.bytes
seg_eq _ _ = false

abbrev pub invalid_input {ℓ} : {A : Type ℓ} → Message → IoResult A
invalid_input text = err (record { kind = ErrorKind.invalid_input; message = text })

-- `<DataSegment as TryFrom<&[u8]>>::try_from`
unfoldable pub data_try_from : List ℕ → IoResult DataSegment
data_try_from [] = invalid_input Message.no_data
data_try_from (b ∷ bs) =
    if ltb max_data_len (length (b ∷ bs))
    then invalid_input Message.data_too_long
    else ok (record { bytes = b ∷ bs })

-- `segment.get(0..1)`
unfoldable pub instr_code_of : List ℕ → Option ℕ
instr_code_of [] = none
instr_code_of (c ∷ bs) = some c

-- `segment.get(1..2)`
unfoldable pub seq_num_of : List ℕ → Option ℕ
seq_num_of (c ∷ n ∷ bs) = some n
seq_num_of _ = none

abbrev result_ok {ℓ} : {A : Type ℓ} → IoResult A → Option A
result_ok (ok a) = some a
result_ok (err e) = none

-- `segment.get(2..)` is `None` below two bytes, and empty at two.
unfoldable pub data_of : List ℕ → Option DataSegment
unfolding data_try_from
data_of (c ∷ n ∷ bs) = result_ok (data_try_from bs)
data_of _ = none

-- `Segment::into_bytes`
unfoldable pub into_bytes : Segment → List ℕ
into_bytes (establish n) = instr_code_establish ∷ n ∷ []
into_bytes reset = instr_code_reset ∷ []
into_bytes (acknowledge n) = instr_code_acknowledge ∷ n ∷ []
into_bytes (sequential n accept) = instr_code_accept ∷ n ∷ []
into_bytes (sequential n finish) = instr_code_finish ∷ n ∷ []
into_bytes (sequential n (payload d)) = instr_code_data ∷ n ∷ d.bytes

-- A segment that carries a number and nothing else.
abbrev numbered : Option ℕ → Option DataSegment → (ℕ → Segment) → Message → IoResult Segment
numbered (some n) none make text = ok (make n)
numbered _ _ make text = invalid_input text

abbrev carrying : Option ℕ → Option DataSegment → IoResult Segment
carrying (some n) (some d) = ok (sequential n (payload d))
carrying _ _ = invalid_input Message.invalid_data

-- The `match` on the instruction code.
unfoldable pub decode : ℕ → Option ℕ → Option DataSegment → IoResult Segment
decode code seq_num carried =
    if code == instr_code_establish
    then numbered seq_num carried establish Message.invalid_establish
    else if code == instr_code_reset
    then elim seq_num [ none ↦ ok reset | some _ ↦ invalid_input Message.invalid_reset ]
    else if code == instr_code_accept
    then numbered seq_num carried (λ n. sequential n accept) Message.invalid_accept
    else if code == instr_code_finish
    then numbered seq_num carried (λ n. sequential n finish) Message.invalid_finish
    else if code == instr_code_acknowledge
    then numbered seq_num carried acknowledge Message.invalid_acknowledge
    else if code == instr_code_data
    then carrying seq_num carried
    else invalid_input Message.unknown_type

-- `<Segment as TryFrom<&[u8]>>::try_from`
unfoldable pub try_from : List ℕ → IoResult Segment
unfolding decode instr_code_of seq_num_of data_of
try_from segment =
    if ltb max_segment_len (length segment)
    then invalid_input Message.invalid_length
    else elim (instr_code_of segment) [
      | none ↦ invalid_input Message.invalid_length
      | some code ↦ decode code (seq_num_of segment) (data_of segment)
    ]
