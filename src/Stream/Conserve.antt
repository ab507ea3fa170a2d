-- ===== src/Stream/Conserve.antt =====
-- stream/inner.rs: what `write` and `flush` do with the bytes, on each branch.
use mdswp.Prelude.{
  ℕ, zero, suc, ◌≤◌, ◌<◌, ◌≡◌, refl, ◌∙◌, ap, sym, List, [], ◌∷◌, ◌++◌, append-nil, arith, length,
  take, drop, min, length-take, length-drop, All, lt→ltb,
}
use mdswp.Util.{ok, done}
use mdswp.Segment.{max_data_len, DataSegment}
use mdswp.Send.{SendStorage}
use mdswp.Stream.{StreamInner, write_loop, write, flush_loop, flush}
use mdswp.Stream.Buffer.{
  Unfinished, queue_data, bytes_of, push_bytes-ok, piece-Unfinished, Cut, Cut-cons, nothing-Cut,
  IsFull, write_loop_lem,
}

abbrev pub IsPiece : DataSegment → Type 0
IsPiece d = (1 ≤ length d.bytes) × (length d.bytes ≤ max_data_len)

abbrev pub IsNothing : List ℕ → Type 0
IsNothing buf = buf ≡ []

abbrev cut_len : List ℕ → ℕ
cut_len buf = min max_data_len (length buf)

flush_round :
    (f : ℕ) (buf : List ℕ) (st : SendStorage)
    → Unfinished st
    → 0 < length buf
    → flush_loop (suc f) buf st
      ≡ flush_loop f
          (drop (cut_len buf) buf)
          (queue_data st (record { bytes = take (cut_len buf) buf } ∷ []))
unfolding flush_loop
flush_round f buf st h some_left = rw (
  lt→ltb 0 (length buf) some_left,
  push_bytes-ok st (take (cut_len buf) buf) h (omega (arith, length-take (cut_len buf) buf))
      (omega (arith, length-take (cut_len buf) buf)),
)

flush_stop : (f : ℕ) (st : SendStorage) → flush_loop (suc f) [] st ≡ done (ok tt, [], st)
unfolding flush_loop
flush_stop f st = refl

flush_loop_lem :
    (f : ℕ) (buf : List ℕ) (st : SendStorage)
    → Unfinished st
    → length buf < f
    → Cut st buf IsPiece IsNothing (flush_loop f buf st)
flush_loop_lem zero buf st h fuel = absurd (omega arith)
flush_loop_lem (suc f) [] st h fuel = nothing-Cut st [] IsPiece IsNothing _ (flush_stop f st) refl
flush_loop_lem (suc f) (b ∷ bs) st h fuel =
    let buf = b ∷ bs in
    let n = cut_len buf in
    Cut-cons st buf n IsPiece IsNothing (flush_round f buf st h (omega arith))
      (omega (arith, length-take n buf), omega (arith, length-take n buf))
      (flush_loop_lem f (drop n buf) _ (piece-Unfinished st _) (omega (arith, length-drop n buf)))

-- A stream whose send half has new segments queued, and `rest` in its buffer.
abbrev pub queued : StreamInner → List DataSegment → List ℕ → StreamInner
queued s ds rest = record s { send_buffer = rest; send_storage = queue_data s.send_storage ds }

write_runs :
    (s : StreamInner) (bytes rest : List ℕ) (ds : List DataSegment)
    → s.conn_state ≡ ok tt
    → write_loop (suc (length (s.send_buffer ++ bytes))) (s.send_buffer ++ bytes) s.send_storage
      ≡ done (ok tt, rest, queue_data s.send_storage ds)
    → write s bytes ≡ done (ok (length bytes), queued s ds rest)
unfolding write
write_runs s bytes rest ds fine ran = ground arith

flush_runs :
    (s : StreamInner) (rest : List ℕ) (ds : List DataSegment)
    → s.conn_state ≡ ok tt
    → flush_loop (suc (length s.send_buffer)) s.send_buffer s.send_storage
      ≡ done (ok tt, rest, queue_data s.send_storage ds)
    → flush s ≡ done (ok tt, queued s ds rest)
unfolding flush
flush_runs s rest ds fine ran = ground arith

module _ (s : StreamInner) (fine : s.conn_state ≡ ok tt)
    (open_end : Unfinished s.send_storage) where
  -- On a connection without error and with no FINISH pushed last, `write` returns the number of
  -- its bytes. It queues full DATA segments only and keeps less than one segment in the buffer;
  -- these and the rest are the old buffer and the new bytes, in order and complete.
  pub write_conserves :
      (bytes : List ℕ)
      → (ds : List DataSegment) × (rest : List ℕ) × (write s bytes
          ≡ done (ok (length bytes), queued s ds rest))
        × (bytes_of ds ++ rest ≡ s.send_buffer ++ bytes)
        × All IsFull ds
        × (length rest < max_data_len)
  write_conserves bytes =
      let c =
        write_loop_lem (suc (length (s.send_buffer ++ bytes))) (s.send_buffer ++ bytes)
          s.send_storage open_end (omega arith) in
      (
        c.pieces,
        c.rest,
        write_runs s bytes c.rest c.pieces fine c.returns,
        c.conserved,
        c.sizes,
        c.left,
      )

  -- On a connection without error and with no FINISH pushed last, `flush` succeeds and empties the
  -- buffer into DATA segments that hold its bytes in order, each with some and none with more than
  -- fits.
  pub flush_conserves :
      (ds : List DataSegment) × (flush s ≡ done (ok tt, queued s ds []))
      × (bytes_of ds ≡ s.send_buffer)
      × All IsPiece ds
  flush_conserves =
      let c =
        flush_loop_lem (suc (length s.send_buffer)) s.send_buffer s.send_storage open_end
          (omega arith) in
      (
        c.pieces,
        flush_runs s [] c.pieces fine
            (c.returns ∙ ap (λ r. done (ok tt, r, queue_data s.send_storage c.pieces)) c.left),
        sym (append-nil (bytes_of c.pieces))
            ∙ ap (◌++◌ (bytes_of c.pieces)) (sym c.left)
            ∙ c.conserved,
        c.sizes,
      )
