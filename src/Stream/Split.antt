-- ===== src/Stream/Split.antt =====
-- stream/inner.rs: two calls of `write` do what one does with the bytes of both.
use mdswp.Prelude.{
  ℕ, zero, suc, ◌≡◌, refl, ◌∙◌, ap, ap₂, sym, subst, List, [], ◌∷◌, ◌++◌, append-nil, append_assoc,
  arith, length, length-append, take, drop, All, All-append,
}
use mdswp.Util.{ok, done}
use mdswp.Segment.{max_data_len, DataSegment}
use mdswp.Send.{SendStorage}
use mdswp.Stream.{StreamInner, write}
use mdswp.Stream.Buffer.{
  Unfinished, queue_data, bytes_of, cut-cons, piece-Unfinished, IsFull, IsShort,
}
use mdswp.Stream.Conserve.{queued, write_conserves}

take-exact : {A : Type 0} (n : ℕ) (xs ys : List A) → length xs ≡ n → take n (xs ++ ys) ≡ xs
take-exact zero [] ys e = refl
take-exact zero (x ∷ xs) ys e = absurd (omega arith)
take-exact (suc n) [] ys e = absurd (omega arith)
take-exact (suc n) (x ∷ xs) ys e = ap (λ q. x ∷ q) (take-exact n xs ys (omega arith))

drop-exact : {A : Type 0} (n : ℕ) (xs ys : List A) → length xs ≡ n → drop n (xs ++ ys) ≡ ys
drop-exact zero [] ys e = refl
drop-exact zero (x ∷ xs) ys e = absurd (omega arith)
drop-exact (suc n) [] ys e = absurd (omega arith)
drop-exact (suc n) (x ∷ xs) ys e = drop-exact n xs ys (omega arith)

bytes-append : (ds es : List DataSegment) → bytes_of (ds ++ es) ≡ bytes_of ds ++ bytes_of es
bytes-append [] es = refl
bytes-append (d ∷ ds) es =
    ap (λ q. d.bytes ++ q) (bytes-append ds es)
    ∙ sym (append_assoc d.bytes (bytes_of ds) (bytes_of es))

too_long :
    (d : DataSegment) (ds : List DataSegment) (r s : List ℕ)
    → IsFull d
    → IsShort s
    → s ≡ (d.bytes ++ bytes_of ds) ++ r
    → ⊥
too_long d ds r s full short e = omega (
  arith,
  ap length e,
  length-append (d.bytes ++ bytes_of ds) r,
  length-append d.bytes (bytes_of ds),
)

-- The cut into full pieces and a short rest is determined by the bytes.
cut_unique :
    (ds es : List DataSegment) (r s : List ℕ)
    → All IsFull ds
    → All IsFull es
    → IsShort r
    → IsShort s
    → bytes_of ds ++ r ≡ bytes_of es ++ s
    → (ds ≡ es) × (r ≡ s)
cut_unique [] [] r s fd fe sr ss e = (refl, e)
cut_unique [] (d ∷ es) r s fd fe sr ss e = absurd (too_long d es s r fe.0 sr e)
cut_unique (d ∷ ds) [] r s fd fe sr ss e = absurd (too_long d ds r s fd.0 ss (sym e))
cut_unique (d ∷ ds) (c ∷ es) r s fd fe sr ss e =
    let e' : d.bytes ++ (bytes_of ds ++ r) ≡ c.bytes ++ (bytes_of es ++ s) =
      sym (append_assoc d.bytes (bytes_of ds) r) ∙ e ∙ append_assoc c.bytes (bytes_of es) s in
    let head : d.bytes ≡ c.bytes =
      sym (take-exact max_data_len d.bytes (bytes_of ds ++ r) fd.0)
      ∙ ap (take max_data_len) e'
      ∙ take-exact max_data_len c.bytes (bytes_of es ++ s) fe.0 in
    let tail : bytes_of ds ++ r ≡ bytes_of es ++ s =
      sym (drop-exact max_data_len d.bytes (bytes_of ds ++ r) fd.0)
      ∙ ap (drop max_data_len) e'
      ∙ drop-exact max_data_len c.bytes (bytes_of es ++ s) fe.0 in
    let (same, rest) = cut_unique ds es r s fd.1 fe.1 sr ss tail in
    (ap₂ (λ q qs. record { bytes = q } ∷ qs) head same, rest)

queued-Unfinished :
    (st : SendStorage) (ds : List DataSegment) → Unfinished st → Unfinished (queue_data st ds)
queued-Unfinished st [] h =
    subst Unfinished (ap (λ q. record st { queue_unsent = q }) (sym (append-nil st.queue_unsent))) h
queued-Unfinished st (d ∷ ds) h =
    subst Unfinished (cut-cons st d ds)
      (queued-Unfinished (queue_data st (d ∷ [])) ds (piece-Unfinished st d))

queue-twice :
    (st : SendStorage) (ds es : List DataSegment)
    → queue_data (queue_data st ds) es ≡ queue_data st (ds ++ es)
queue-twice st [] es =
    ap (λ q. queue_data (record st { queue_unsent = q }) es) (append-nil st.queue_unsent)
queue-twice st (d ∷ ds) es =
    ap (λ q. queue_data q es) (sym (cut-cons st d ds))
    ∙ queue-twice (queue_data st (d ∷ [])) ds es
    ∙ cut-cons st d (ds ++ es)

-- On a connection without error and with no FINISH pushed last, `write` of some bytes and then of
-- others succeeds and leaves the stream just as one `write` of both does: the segments do not
-- depend on how the bytes come.
pub write-append :
    (s : StreamInner) (a b : List ℕ)
    → s.conn_state ≡ ok tt
    → Unfinished s.send_storage
    → (t u : StreamInner) × (write s a ≡ done (ok (length a), t))
      × (write t b ≡ done (ok (length b), u))
      × (write s (a ++ b) ≡ done (ok (length (a ++ b)), u))
write-append s a b fine open_end =
    let (ds, r, ran, kept, full, short) = write_conserves s fine open_end a in
    let (es, q, ran', kept', full', short') =
      write_conserves (queued s ds r) fine (queued-Unfinished s.send_storage ds open_end) b in
    let (both, z, ran'', kept'', full'', short'') = write_conserves s fine open_end (a ++ b) in
    let total : bytes_of (ds ++ es) ++ q ≡ bytes_of both ++ z =
      ap (λ x. x ++ q) (bytes-append ds es)
      ∙ append_assoc (bytes_of ds) (bytes_of es) q
      ∙ ap (λ x. bytes_of ds ++ x) kept'
      ∙ sym (append_assoc (bytes_of ds) r b)
      ∙ ap (λ x. x ++ b) kept
      ∙ append_assoc s.send_buffer a b
      ∙ sym kept'' in
    let (same, rest) =
      cut_unique (ds ++ es) both q z (All-append IsFull ds es full full') full'' short' short''
        total in
    let ends : queued (queued s ds r) es q ≡ queued s both z =
      ap₂ (λ x st. record s { send_buffer = x; send_storage = st }) rest
        (queue-twice s.send_storage ds es ∙ ap (queue_data s.send_storage) same) in
    (queued s ds r, queued s both z, ran, ran' ∙ ap (λ x. done (ok (length b), x)) ends, ran'')
