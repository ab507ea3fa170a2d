-- ===== src/Wire/Lifted.antt =====
-- stream/inner.rs: what the workers and the network do to the storages, they do to two streams.
use mdswp.Prelude.{ℕ, suc, ◌+◌, ◌%◌, ◌≤◌, ◌<◌, ◌≡◌, refl, ◌∙◌, ap, sym, subst, ◌∷◌}
use mdswp.Util.{ok}
use mdswp.Send.{SendStorage}
use mdswp.Send
use mdswp.Recv.{recv, pop_acknowledge}
use mdswp.Recv.Order.{window_position, lower_position}
use mdswp.Link.{
  In, Sides, next_position, Move, pushes, sends, idles, arrives, delivers, answers, is_quiet,
  acknowledges,
}
use mdswp.Link.Settle.{IsExchange, Exchange, stop, step}
use mdswp.Wire.{
  Wire, receiver_of, Act, near_sends, far_receives, Acts, here, next, draws, draws_none, hears,
}
use mdswp.Wire
use mdswp.Wire.Carried.{halves}
use mdswp.Wire.Methods.{Acts-trans}

abbrev pub sides_of : Wire → Sides
sides_of w = halves w w.near.send_storage w.far.recv_storage

-- Two streams without error have come to given storages, with the same bytes in all buffers.
pub record Lifted (start : ℕ) (w : Wire) (b : Sides) : Type 0 where
  pub later : Wire
  pub acts : Acts start w later
  pub sides_are : sides_of later ≡ b
  pub near_live : later.near.conn_state ≡ ok tt
  pub far_live : later.far.conn_state ≡ ok tt
  pub written_is : later.written ≡ w.written
  pub read_is : later.bytes_read ≡ w.bytes_read
  pub buffer_is : later.far.recv_buffer ≡ w.far.recv_buffer
  pub finished_is : later.far.recv_finished ≡ w.far.recv_finished

module _ (start : ℕ) where
  Lifted-trans :
      {w : Wire} {b c : Sides} (x : Lifted start w b) → Lifted start x.later c → Lifted start w c
  Lifted-trans x y = record {
    later = y.later;
    acts = Acts-trans start x.acts y.acts;
    sides_are = y.sides_are;
    near_live = y.near_live;
    far_live = y.far_live;
    written_is = y.written_is ∙ x.written_is;
    read_is = y.read_is ∙ x.read_is;
    buffer_is = y.buffer_is ∙ x.buffer_is;
    finished_is = y.finished_is ∙ x.finished_is;
  }

  -- An act of a worker, or of a segment that comes in.
  lift-Act :
      {w t : Wire} {b : Sides}
      → Act start w t
      → sides_of t ≡ b
      → t.near.conn_state ≡ ok tt
      → t.far.conn_state ≡ ok tt
      → t.written ≡ w.written
      → t.bytes_read ≡ w.bytes_read
      → t.far.recv_buffer ≡ w.far.recv_buffer
      → t.far.recv_finished ≡ w.far.recv_finished
      → Lifted start w b
  lift-Act {w} {t} a sides near far written read buffer finished = record {
    later = t;
    acts = next here a;
    sides_are = sides;
    near_live = near;
    far_live = far;
    written_is = written;
    read_is = read;
    buffer_is = buffer;
    finished_is = finished;
  }

  lift_move :
      (w : Wire) {a b : Sides}
      → sides_of w ≡ a
      → w.near.conn_state ≡ ok tt
      → w.far.conn_state ≡ ok tt
      → (m : Move start a b) → IsExchange start m
      → Lifted start w b
  lift_move w e near far (pushes u s' ne ran) h = absurd h
  lift_move w e near far (delivers u st ran) h = absurd h
  lift_move w {a} e near far (sends now i n v s' ran number x y) h =
      let ran' = ap (λ q. Send.pop q.sender now) e ∙ ran in
      let below = subst (λ q. i < next_position start s' q.pushed) (sym e) x in
      let above = subst (λ q. next_position start s' q.pushed ≤ i + 10) (sym e) y in
      lift-Act (near_sends near (draws now i n v s' ran') (number, below, above))
        (ap {A = Sides} (λ q. record q { sender = s'; packets = (i, v) ∷ q.packets }) e) near far
        refl refl refl refl
  lift_move w e near far (idles now s' ran) h =
      let ran' = ap (λ q. Send.pop q.sender now) e ∙ ran in
      lift-Act (near_sends near (draws_none now s' ran') tt)
        (ap {A = Sides} (λ q. record q { sender = s' }) e) near far refl refl refl refl
  lift_move w e near far (arrives i v r st place x y ran) h =
      let ran' = ap (λ q. recv q.receiver.storage (i % 256) v) e ∙ ran in
      let place' = subst (λ q. In (i, v) q.packets) (sym e) place in
      let above = subst (λ q. lower_position start q.receiver ≤ i) (sym e) x in
      let below = subst (λ q. i < lower_position start q.receiver + 256) (sym e) y in
      lift-Act
        (far_receives far (Wire.arrives i (i % 256) v r st ran') (refl, place', above, below))
        (ap {A = Sides} (λ q. record q { receiver = record (q.receiver) { storage = st } }) e) near
        far refl refl refl refl
  lift_move w e near far (answers now i n st ran at) h =
      let ran' = ap (λ q. pop_acknowledge q.receiver.storage now) e ∙ ran in
      let at' = subst (λ q. suc i ≡ window_position start q.receiver) (sym e) at in
      lift-Act (far_receives far (Wire.answers now i n st ran') at')
        (ap {A = Sides}
          (λ q. record q {
            receiver = record (q.receiver) { storage = st };
            acks = (i, n) ∷ q.acks;
          })
          e)
        near far refl refl refl refl
  lift_move w e near far (is_quiet now st ran) h =
      let ran' = ap (λ q. pop_acknowledge q.receiver.storage now) e ∙ ran in
      lift-Act (far_receives far (Wire.is_quiet now st ran') tt)
        (ap {A = Sides} (λ q. record q { receiver = record (q.receiver) { storage = st } }) e) near
        far refl refl refl refl
  lift_move w e near far (acknowledges i n r s' place x ran) h =
      let ran' = ap (λ q. Send.acknowledge q.sender n) e ∙ ran in
      let place' = subst (λ q. In (i, n) q.acks) (sym e) place in
      let recent = subst (λ q. next_position start q.sender q.pushed < i + 256) (sym e) x in
      lift-Act (near_sends near (hears i n r s' ran') (place', recent))
        (ap {A = Sides} (λ q. record q { sender = s' }) e) near far refl refl refl refl

  pub lifts :
      (w : Wire) {a b : Sides}
      → sides_of w ≡ a
      → w.near.conn_state ≡ ok tt
      → w.far.conn_state ≡ ok tt
      → Exchange start a b
      → Lifted start w b
  lifts w e near far stop = record {
    later = w;
    acts = here;
    sides_are = e;
    near_live = near;
    far_live = far;
    written_is = refl;
    read_is = refl;
    buffer_is = refl;
    finished_is = refl;
  }
  lifts w e near far (step x m h) =
      let y = lifts w e near far x in
      Lifted-trans y (lift_move y.later y.sides_are y.near_live y.far_live m h)
