-- ===== src/Stream/Copying.antt =====
-- stream/inner.rs: what `read` does with the bytes that have come in, on each branch.
use mdswp.Prelude.{
  ℕ, zero, suc, ◌≤◌, ◌≡◌, refl, ◌∙◌, ap, sym, true, false, List, [], ◌++◌, append_assoc, arith,
  length, take, drop, min, length-take, take-append-drop,
}
use mdswp.Util.{IoResult, ok, Run, done, hang}
use mdswp.Stream.{StreamInner}
use mdswp.Stream.Incoming.{read_loop, read}
use mdswp.Stream.Reading.{
  bytes_before_finish, has_finish, pending, IsOpen, waits, ready, ended, still_open, read_loop_lem,
}

-- The ways in which `read` into a buffer of `size` bytes ends on an open stream.
pub data Reads (s : StreamInner) (size : ℕ) (out : Run (IoResult (List ℕ) × StreamInner))
    : Type 0 where
  nothing_yet :
      out ≡ hang → pending s ≡ [] → has_finish s.recv_storage.pop_queue ≡ false → Reads s size out
  gives :
      (bytes : List ℕ) (s' : StreamInner)
      → out ≡ done (ok bytes, s')
      → bytes ++ pending s' ≡ pending s
      → length bytes ≤ size
      → (1 ≤ size → 1 ≤ length bytes)
      → has_finish s'.recv_storage.pop_queue ≡ has_finish s.recv_storage.pop_queue
      → IsOpen s'
      → Reads s size out
  at_end :
      (s' : StreamInner)
      → out ≡ done (ok [], s')
      → pending s ≡ []
      → has_finish s.recv_storage.pop_queue ≡ true
      → s'.recv_finished ≡ true
      → Reads s size out

take-nil : (n : ℕ) → take {A = ℕ} n [] ≡ []
take-nil zero = refl
take-nil (suc n) = refl

-- What `read` copies out of the buffer.
abbrev cut_off : StreamInner → ℕ → List ℕ
cut_off s size = take (min (length s.recv_buffer) size) s.recv_buffer

abbrev left_over : StreamInner → ℕ → StreamInner
left_over s size = record s { recv_buffer = drop (min (length s.recv_buffer) size) s.recv_buffer }

module _ (s : StreamInner) (size : ℕ) (live : IsOpen s) where
  abbrev looked : Run (IoResult (Unit {0}) × StreamInner)
  looked = read_loop (suc (suc (length s.recv_storage.pop_queue))) s

  read_hangs : looked ≡ hang → read s size ≡ hang
  unfolding read
  read_hangs e = cc (still_open s live)

  read_copies :
      (s' : StreamInner)
      → looked ≡ done (ok tt, s')
      → read s size ≡ done (ok (cut_off s' size), left_over s' size)
  unfolding read
  read_copies s' e = cc (still_open s live)

  cut_conserves : (s' : StreamInner) → cut_off s' size ++ pending (left_over s' size) ≡ pending s'
  cut_conserves s' =
      let n = min (length s'.recv_buffer) size in
      let rest = bytes_before_finish s'.recv_storage.pop_queue in
      sym (append_assoc (take n s'.recv_buffer) (drop n s'.recv_buffer) rest)
      ∙ ap (λ b. b ++ rest) (take-append-drop n s'.recv_buffer)

  no_bytes : (s' : StreamInner) → s'.recv_buffer ≡ [] → cut_off s' size ≡ []
  no_bytes s' e = rw (e) (take-nil (min 0 size))

  -- On an open stream `read` waits just when no byte can be read and no FINISH is queued. Otherwise
  -- it returns: with bytes that are the first of those that can be read, at most `size` and at least
  -- one if `size` allows, and the rest stays to be read; or, when only a FINISH is left, with no
  -- byte and the reading finished.
  pub read_lem : Reads s size (read s size)
  read_lem =
      elim (read_loop_lem (suc (suc (length s.recv_storage.pop_queue))) s s.recv_buffer
        s.recv_storage.pop_queue live refl refl (omega arith)) [
          | waits e p h ↦ nothing_yet (read_hangs e) p h
          | ready s' e o some_read p h ↦
              let n = min (length s'.recv_buffer) size in
              gives (cut_off s' size) (left_over s' size) (read_copies s' e) (cut_conserves s' ∙ p)
                (omega (arith, length-take n s'.recv_buffer))
                (λ room. omega (arith, length-take n s'.recv_buffer)) h o
          | ended s' e over empty p h ↦
              at_end (left_over s' size)
                (read_copies s' e ∙ ap (λ b. done (ok b, left_over s' size)) (no_bytes s' empty)) p
                h over
        ]
