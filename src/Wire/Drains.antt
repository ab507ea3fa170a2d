-- ===== src/Wire/Drains.antt =====
-- stream/inner.rs: `read` takes all that has come in, up to a FINISH.
use mdswp.Prelude.{
  ℕ, ◌≡◌, refl, ◌∙◌, ap, sym, ◌⊎◌, inl, inr, true, false, some, List, [], ◌∷◌, ◌++◌, append-nil,
  append_assoc, length, drop-length, Bool-cases,
}
use mdswp.Util.{ok}
use mdswp.Segment.{SequentialSegment, accept, finish, payload}
use mdswp.Recv.{RecvStorage, pop}
use mdswp.Stream.{StreamInner}
use mdswp.Stream.Incoming.{take_segment}
use mdswp.Stream.Reading.{bytes_before_finish}
use mdswp.Wire.{Wire, Acts, here, next, far_receives, takes, copies}
use mdswp.Wire.Bytes.{after-finish, ReadOut, copied-ReadOut, taken-ReadOut, same-ReadOut}
use mdswp.Wire.Methods.{Acts-trans}

-- Only the side that reads has changed, and its buffer is empty.
pub record Reads (start : ℕ) (w : Wire) : Type 0 where
  pub later : Wire
  pub acts : Acts start w later
  pub near_is : later.near ≡ w.near
  pub pushed_is : later.pushed ≡ w.pushed
  pub written_is : later.written ≡ w.written
  pub far_live : later.far.conn_state ≡ ok tt
  pub empty : later.far.recv_buffer ≡ []
  pub read_out : ReadOut later.far later.output later.bytes_read
  pub taken_is :
      later.output ++ later.far.recv_storage.pop_queue ≡ w.output ++ w.far.recv_storage.pop_queue

pop_first :
    (s : RecvStorage) (v : SequentialSegment) (vs : List SequentialSegment)
    → s.pop_queue ≡ v ∷ vs
    → pop s ≡ (some v, record s { pop_queue = vs })
unfolding pop
pop_first s v vs e = rw e refl

take_segment_keeps :
    (s : StreamInner) (v : SequentialSegment)
    → ((take_segment s v).recv_storage ≡ s.recv_storage)
      × ((take_segment s v).conn_state ≡ s.conn_state)
unfolding take_segment
take_segment_keeps s accept = (refl, refl)
take_segment_keeps s finish = (refl, refl)
take_segment_keeps s (payload d) = (refl, refl)

module _ (start : ℕ) where
  abbrev reads_on : {w : Wire} (x : Reads start w) → Reads start x.later → Reads start w
  reads_on x y = record {
    later = y.later;
    acts = Acts-trans start x.acts y.acts;
    near_is = y.near_is ∙ x.near_is;
    pushed_is = y.pushed_is ∙ x.pushed_is;
    written_is = y.written_is ∙ x.written_is;
    far_live = y.far_live;
    empty = y.empty;
    read_out = y.read_out;
    taken_is = y.taken_is ∙ x.taken_is;
  }

  -- The whole buffer is copied.
  copies_all :
      (w : Wire)
      → w.far.conn_state ≡ ok tt
      → ReadOut w.far w.output w.bytes_read
      → (x : Reads start w) × (x.later.far.recv_storage ≡ w.far.recv_storage)
  copies_all w live h =
      let n = length w.far.recv_buffer in
      (
        record {
          later = _;
          acts = next here (far_receives live (copies n) tt);
          near_is = refl;
          pushed_is = refl;
          written_is = refl;
          far_live = live;
          empty = drop-length w.far.recv_buffer;
          read_out = copied-ReadOut w.far _ w.output w.bytes_read h n refl refl;
          taken_is = refl;
        },
        refl,
      )

  -- The first segment of the queue is taken, and its bytes are copied.
  takes_first :
      (w : Wire) (v : SequentialSegment) (vs : List SequentialSegment)
      → w.far.conn_state ≡ ok tt
      → w.far.recv_buffer ≡ []
      → w.far.recv_finished ≡ false
      → w.far.recv_storage.pop_queue ≡ v ∷ vs
      → ReadOut w.far w.output w.bytes_read
      → (x : Reads start w) × (x.later.far.recv_storage.pop_queue ≡ vs)
  takes_first w v vs live empty more q h =
      let st : RecvStorage = record (w.far.recv_storage) { pop_queue = vs } in
      let s : StreamInner = record (w.far) { recv_storage = st } in
      let (storage, state) = take_segment_keeps s v in
      let ran = pop_first w.far.recv_storage v vs q in
      let u : Wire = record w { far = take_segment s v; output = w.output ++ v ∷ [] } in
      let act : Acts start w u = next here (far_receives live (takes v st empty more ran) tt) in
      let h' =
        taken-ReadOut s w.output w.bytes_read v more
          (same-ReadOut w.far s w.output w.bytes_read h refl refl) in
      let (x, same) = copies_all u (state ∙ live) h' in
      let queue : u.far.recv_storage.pop_queue ≡ vs = ap (λ r. r.pop_queue) storage in
      (
        record {
          later = x.later;
          acts = Acts-trans start act x.acts;
          near_is = x.near_is;
          pushed_is = x.pushed_is;
          written_is = x.written_is;
          far_live = x.far_live;
          empty = x.empty;
          read_out = x.read_out;
          taken_is =
              x.taken_is
              ∙ ap (λ q. (w.output ++ v ∷ []) ++ q) queue
              ∙ append_assoc w.output (v ∷ []) vs
              ∙ ap (λ q. w.output ++ q) (sym q);
        },
        ap (λ r. r.pop_queue) same ∙ queue,
      )

  -- The end is a FINISH that was taken, or an empty queue.
  abbrev AllRead : Wire → Type 0
  AllRead w =
      (x : Reads start w) × ((x.later.far.recv_finished ≡ true)
        ⊎ (x.later.far.recv_storage.pop_queue ≡ []))

  drains_queue :
      (vs : List SequentialSegment) (w : Wire) (x : Reads start w)
      → x.later.far.recv_storage.pop_queue ≡ vs
      → AllRead w
  drains_queue [] w x q = (x, inr q)
  drains_queue (v ∷ vs) w x q = elim (Bool-cases x.later.far.recv_finished) [
    | inl over ↦ (x, inl over)
    | inr more ↦
        let (y, q') = takes_first x.later v vs x.far_live x.empty more q x.read_out in
        drains_queue vs w (reads_on x y) q'
  ]

  -- All that is queued can be read.
  pub drains :
      (w : Wire)
      → w.far.conn_state ≡ ok tt
      → ReadOut w.far w.output w.bytes_read
      → (x : Reads start w) × (x.later.bytes_read
          ≡ bytes_before_finish (w.output ++ w.far.recv_storage.pop_queue))
  drains w live h =
      let (x, same) = copies_all w live h in
      let (y, end) = drains_queue _ w x refl in
      let t = y.later in
      let read : t.bytes_read ≡ bytes_before_finish t.output =
        sym (append-nil t.bytes_read)
        ∙ ap (λ q. t.bytes_read ++ q) (sym y.empty)
        ∙ y.read_out.first in
      (
        y,
        read
            ∙ elim end [
              | inl over ↦
                  sym (after-finish t.output t.far.recv_storage.pop_queue (y.read_out.over ∙ over))
              | inr none_left ↦
                  ap bytes_before_finish
                    (sym (append-nil t.output) ∙ ap (λ q. t.output ++ q) (sym none_left))
            ]
            ∙ ap bytes_before_finish y.taken_is,
      )
