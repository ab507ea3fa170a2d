-- ===== src/Segment/Text.antt =====
-- segment.rs: the texts of segments, as code points, and the views of the bytes of a DATA segment.
use Prim.Native.Char.{code}
use Prim.Native.String.{String}
use mdswp.Prelude.{
  ℕ, zero, suc, ◌+◌, ◌/◌, ◌%◌, Option, none, some, List, [], ◌∷◌, ◌++◌, length, take, min, ltb,
  if◌then◌else◌,
}
use mdswp.Util.{Text}
use mdswp.Segment.{
  DataSegment, SequentialSegment, accept, finish, payload, Segment, establish, reset, acknowledge,
  sequential,
}

-- the code points of a literal
abbrev pub codes : String → Text
codes String.[] = []
codes (String.◌∷◌ c s) = code c ∷ codes s

-- The decimal digits of a number below `10 ^ fuel`, as `{}` prints it.
abbrev digits : ℕ → ℕ → Text
digits zero n = []
digits (suc fuel) n =
    let before = digits fuel (n / 10) in (if ltb n 10 then [] else before) ++ (48 + n % 10) ∷ []

-- The numbers that are printed here, bytes and the lengths of DATA, are below a thousand.
abbrev pub decimal : ℕ → Text
decimal n = digits 3 n

-- A slice of bytes, as `{:?}` prints it.
abbrev listed_behind : List ℕ → Text
listed_behind [] = []
listed_behind (b ∷ bs) = codes ", " ++ decimal b ++ listed_behind bs

abbrev pub listed : List ℕ → Text
listed [] = codes "[]"
listed (b ∷ bs) = codes "[" ++ decimal b ++ listed_behind bs ++ codes "]"

-- `len`, and the slice that `as_ref`, `borrow` and `into_iter` give
unfoldable pub len : DataSegment → ℕ
len d = length d.bytes

unfoldable pub as_ref : DataSegment → List ℕ
as_ref d = d.bytes

unfoldable pub into_iter : DataSegment → List ℕ
into_iter d = d.bytes

-- `data[..n]`; it panics past the end, where there is `none`.
unfoldable pub index : DataSegment → ℕ → Option (List ℕ)
index d n = if ltb (length d.bytes) n then none else some (take n d.bytes)

unfoldable pub first_bytes : DataSegment → Text
unfolding len
first_bytes d = let n = min (len d) 10 in decimal n ++ codes " bytes: " ++ listed (take n d.bytes)

-- `Debug` and `Display` of `Segment`
unfoldable pub segment_text : Segment → Text
unfolding len
segment_text (establish n) = codes "ESTABLISH (start_seq_num: " ++ decimal n ++ codes ")"
segment_text reset = codes "RESET"
segment_text (acknowledge n) = codes "ACKNOWLEDGE (seq_num: " ++ decimal n ++ codes ")"
segment_text (sequential n accept) = codes "ACCEPT (start_seq_num: " ++ decimal n ++ codes ")"
segment_text (sequential n finish) = codes "FINISH (seq_num: " ++ decimal n ++ codes ")"
segment_text (sequential n (payload d)) =
    codes "DATA (seq_num: "
    ++ decimal n
    ++ codes ", data: <"
    ++ decimal (len d)
    ++ codes " bytes> first "
    ++ first_bytes d
    ++ codes ")"

-- `Debug` of `SequentialSegment`
unfoldable pub sequential_text : SequentialSegment → Text
unfolding len
sequential_text accept = codes "ACCEPT"
sequential_text (payload d) =
    codes "DATA (" ++ decimal (len d) ++ codes " bytes total, first " ++ first_bytes d ++ codes ")"
sequential_text finish = codes "FINISH"
