-- ===== src/Stream/Buffer.antt =====
-- stream/inner.rs: `write` and `flush` cut the buffered bytes into DATA segments and lose none.
use mdswp.Prelude.{
  ℕ, zero, suc, ◌≤◌, ◌<◌, ◌≡◌, refl, ◌∙◌, ap, sym, inl, inr, false, List, [], ◌∷◌, ◌++◌, map,
  append-nil, append_assoc, arith, length, take, drop, length-take, length-drop, take-append-drop,
  All, Bool-cases, ltb, lt→ltb, le→ltb,
}
use mdswp.Util.{IoResult, ok, Run, done}
use mdswp.Segment.{max_data_len, DataSegment, SequentialSegment, payload, seg_eq, data_try_from}
use mdswp.Send.{SentSegment, SendStorage, last, is_empty, push, push_checked, finished_unchecked}
use mdswp.Stream.{push_bytes, write_loop}

-- No FINISH was pushed last.
abbrev pub Unfinished : SendStorage → Type 0
Unfinished st = finished_unchecked st ≡ done false

abbrev pub queue_data : SendStorage → List DataSegment → SendStorage
queue_data st ds = record st { queue_unsent = st.queue_unsent ++ map payload ds }

-- The bytes of some segments, one after another.
abbrev pub bytes_of : List DataSegment → List ℕ
bytes_of [] = []
bytes_of (d ∷ ds) = d.bytes ++ bytes_of ds

pub last-append {ℓ} : {A : Type ℓ} (u : A) (us : List A) (v : A) → last u (us ++ v ∷ []) ≡ v
last-append u [] v = refl
last-append u (w ∷ us) v = last-append w us v

queue-Unfinished :
    (sent : List SentSegment) (us : List SequentialSegment) (n : ℕ) (d : DataSegment)
    → Unfinished
        (record { queue_sent = sent; queue_unsent = us ++ payload d ∷ []; next_unsent = n })
unfolding finished_unchecked is_empty seg_eq
queue-Unfinished sent [] n d = ground arith
queue-Unfinished sent (u ∷ us) n d = ground (arith, last-append u us (payload d))

push-ok :
    (st : SendStorage) (d : DataSegment)
    → Unfinished st
    → push st (payload d) ≡ done (ok tt, queue_data st (d ∷ []))
unfolding push push_checked
push-ok st d h = rw h

pub push_bytes-ok :
    (st : SendStorage) (bs : List ℕ)
    → Unfinished st
    → 1 ≤ length bs
    → length bs ≤ max_data_len
    → push_bytes st bs ≡ done (ok tt, queue_data st (record { bytes = bs } ∷ []))
unfolding push_bytes data_try_from
push_bytes-ok st [] h a b = absurd (omega arith)
push_bytes-ok st (b ∷ bs) h x y =
    rw (le→ltb max_data_len (length (b ∷ bs)) y, push_bytes)
      (push-ok st (record { bytes = b ∷ bs }) h)

-- What a loop has made of a buffer: segments in the queue, and bytes that are left.
pub record Cut (st : SendStorage) (buf : List ℕ) (P : DataSegment → Type 0) (Q : List ℕ → Type 0)
    (out : Run (IoResult (Unit {0}) × List ℕ × SendStorage)) : Type 0 where
  pub pieces : List DataSegment
  pub rest : List ℕ
  pub returns : out ≡ done (ok tt, rest, queue_data st pieces)
  pub conserved : bytes_of pieces ++ rest ≡ buf
  pub sizes : All P pieces
  pub left : Q rest

abbrev pub IsFull : DataSegment → Type 0
IsFull d = length d.bytes ≡ max_data_len

pub cut-cons :
    (st : SendStorage) (d : DataSegment) (ds : List DataSegment)
    → queue_data (queue_data st (d ∷ [])) ds ≡ queue_data st (d ∷ ds)
cut-cons st d ds =
    ap (λ q. record st { queue_unsent = q })
      (append_assoc st.queue_unsent (payload d ∷ []) (map payload ds))

-- One more piece in front.
module _ (st : SendStorage) (buf : List ℕ) (n : ℕ) (P : DataSegment → Type 0)
    (Q : List ℕ → Type 0) where
  abbrev pub piece : DataSegment
  piece = record { bytes = take n buf }

  pub Cut-cons :
      {inner out : Run (IoResult (Unit {0}) × List ℕ × SendStorage)}
      → out ≡ inner
      → P piece
      → Cut (queue_data st (piece ∷ [])) (drop n buf) P Q inner
      → Cut st buf P Q out
  Cut-cons e p c = record {
    pieces = piece ∷ c.pieces;
    rest = c.rest;
    returns = e ∙ c.returns ∙ ap (λ q. done (ok tt, c.rest, q)) (cut-cons st piece c.pieces);
    conserved =
        append_assoc (take n buf) (bytes_of c.pieces) c.rest
        ∙ ap (◌++◌ (take n buf)) c.conserved
        ∙ take-append-drop n buf;
    sizes = (p, c.sizes);
    left = c.left;
  }

pub piece-Unfinished : (st : SendStorage) (d : DataSegment) → Unfinished (queue_data st (d ∷ []))
piece-Unfinished st d = queue-Unfinished st.queue_sent st.queue_unsent st.next_unsent d

write_round :
    (f : ℕ) (buf : List ℕ) (st : SendStorage)
    → Unfinished st
    → max_data_len ≤ length buf
    → write_loop (suc f) buf st
      ≡ write_loop f
          (drop max_data_len buf)
          (queue_data st (record { bytes = take max_data_len buf } ∷ []))
unfolding write_loop
write_round f buf st h long =
    let size : length (take max_data_len buf) ≡ max_data_len =
      omega (arith, length-take max_data_len buf) in
    rw (
      le→ltb (length buf) max_data_len long,
      push_bytes-ok st (take max_data_len buf) h (omega arith) (omega arith),
    )

pub nothing-Cut :
    (st : SendStorage) (buf : List ℕ) (P : DataSegment → Type 0) (Q : List ℕ → Type 0)
    (out : Run (IoResult (Unit {0}) × List ℕ × SendStorage))
    → out ≡ done (ok tt, buf, st)
    → Q buf
    → Cut st buf P Q out
nothing-Cut st buf P Q out e q = record {
  pieces = [];
  rest = buf;
  returns =
      e
      ∙ ap (λ u. done (ok tt, buf, record st { queue_unsent = u }))
          (sym (append-nil st.queue_unsent));
  conserved = refl;
  sizes = tt;
  left = q;
}

write_stop :
    (f : ℕ) (buf : List ℕ) (st : SendStorage)
    → length buf < max_data_len
    → write_loop (suc f) buf st ≡ done (ok tt, buf, st)
unfolding write_loop
write_stop f buf st short = rw (lt→ltb (length buf) max_data_len short)

abbrev pub IsShort : List ℕ → Type 0
IsShort buf = length buf < max_data_len

pub write_loop_lem :
    (f : ℕ) (buf : List ℕ) (st : SendStorage)
    → Unfinished st
    → length buf < f
    → Cut st buf IsFull IsShort (write_loop f buf st)
write_loop_lem zero buf st h fuel = absurd (omega arith)
write_loop_lem (suc f) buf st h fuel = elim (Bool-cases (ltb (length buf) max_data_len)) [
  | inl short ↦
      let less : length buf < max_data_len = ground arith in
      nothing-Cut st buf IsFull IsShort _ (write_stop f buf st less) less
  | inr long ↦
      let most : max_data_len ≤ length buf = ground arith in
      Cut-cons st buf max_data_len IsFull IsShort (write_round f buf st h most)
        (omega (arith, length-take max_data_len buf))
        (write_loop_lem f (drop max_data_len buf) _ (piece-Unfinished st _)
          (omega (arith, length-drop max_data_len buf)))
]
