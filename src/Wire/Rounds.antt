-- ===== src/Wire/Rounds.antt =====
-- stream/inner.rs: both streams of a connection can do the atoms of a worker.
use mdswp.Prelude.{ℕ, suc, ◌-◌, ◌≤◌, ◌≡◌, refl, sym, subst, Option, none, some, arith}
use mdswp.Util.{ok, done}
use mdswp.Segment.{SequentialSegment}
use mdswp.Send.{SendStorage}
use mdswp.Send
use mdswp.Recv.{RecvStorage, pop_acknowledge}
use mdswp.Recv.Order.{window_position}
use mdswp.Stream.{StreamInner}
use mdswp.Link.{Sides, Runs}
use mdswp.Link.Kept.{draws-Joined}
use mdswp.Wire.{
  Wire, receiver_of, Act, near_sends, near_receives, near_fails, far_sends, far_receives, far_fails,
  here, next, draws, draws_none, answers, is_quiet, sent, MaySend,
}
use mdswp.Wire.Carried.{halves}
use mdswp.Link.Whole.{Begins, halves_agree}
use mdswp.Wire.Delivered.{Kept, Act-Kept}
use mdswp.Wire.Mover.{Reached, Mover}

module _ (start : ℕ) (begun : Sides) (begins : Begins start begun) where
  -- What a pop of the sender gives is what the atoms ask for.
  drawn_position :
      (w : Wire) (now n : ℕ) (v : SequentialSegment) (st : SendStorage)
      → Kept start begun w
      → w.near.conn_state ≡ ok tt
      → Send.pop w.near.send_storage now ≡ done (some (n, v), st)
      → (i : ℕ) × MaySend start (sent i n v) w (record w.near { send_storage = st })
  drawn_position w now n v st k live ran =
      let r =
        subst (λ q. Runs start begun (halves w q k.carried.st)) (sym (k.carried.sending live))
          k.carried.runs in
      let joined = halves_agree start begun (halves w w.near.send_storage k.carried.st) begins r in
      let (hi, more, at, (i, least, most, number, what), few, size, later) =
        draws-Joined _ start joined now (some (n, v)) st ran in
      (i, (number, omega arith, omega arith))

  abbrev pub NearGoes : Wire → StreamInner → Type 0
  NearGoes w s = Reached start (Kept start begun) (λ t. t.near) (λ t. t.far) w s

  abbrev pub FarGoes : Wire → StreamInner → Type 0
  FarGoes w s = Reached start (Kept start begun) (λ t. t.far) (λ t. t.near) w s

  pub near_takes :
      {w t : Wire}
      → Kept start begun w
      → Act start w t
      → t.far ≡ w.far
      → t.written ≡ w.written
      → t.bytes_read ≡ w.bytes_read
      → NearGoes w t.near
  near_takes {w} {t} k a other written read = record {
    later = t;
    acts = next here a;
    good = Act-Kept start begun begins k a;
    at = refl;
    other_is = other;
    written_is = written;
    read_is = read;
  }

  pub far_takes :
      {w t : Wire}
      → Kept start begun w
      → Act start w t
      → t.near ≡ w.near
      → t.written ≡ w.written
      → t.bytes_read ≡ w.bytes_read
      → FarGoes w t.far
  far_takes {w} {t} k a other written read = record {
    later = t;
    acts = next here a;
    good = Act-Kept start begun begins k a;
    at = refl;
    other_is = other;
    written_is = written;
    read_is = read;
  }

  pub near_draw :
      {w : Wire} (r : Option (ℕ × SequentialSegment)) (now : ℕ) (st : SendStorage)
      → Kept start begun w
      → w.near.conn_state ≡ ok tt
      → Send.pop w.near.send_storage now ≡ done (r, st)
      → NearGoes w (record w.near { send_storage = st })
  near_draw none now st k live ran =
      near_takes k (near_sends live (draws_none now st ran) tt) refl refl refl
  near_draw {w} (some (n, v)) now st k live ran =
      let (i, may) = drawn_position w now n v st k live ran in
      near_takes k (near_sends live (draws now i n v st ran) may) refl refl refl

  pub near_ask :
      {w : Wire} (r : Option ℕ) (now : ℕ) (st : RecvStorage)
      → Kept start begun w
      → w.near.conn_state ≡ ok tt
      → pop_acknowledge w.near.recv_storage now ≡ (r, st)
      → NearGoes w (record w.near { recv_storage = st })
  near_ask none now st k live ran =
      near_takes k (near_receives live (is_quiet now st ran)) refl refl refl
  near_ask (some n) now st k live ran =
      near_takes k (near_receives live (answers now n n st ran)) refl refl refl

  abbrev pub near_mover : Mover start
  near_mover = record {
    Good = Kept start begun;
    get = λ t. t.near;
    other = λ t. t.far;
    draw = near_draw;
    ask = near_ask;
    fail = λ e told k. near_takes k (near_fails e told) refl refl refl;
  }

  pub far_draw :
      {w : Wire} (r : Option (ℕ × SequentialSegment)) (now : ℕ) (st : SendStorage)
      → Kept start begun w
      → w.far.conn_state ≡ ok tt
      → Send.pop w.far.send_storage now ≡ done (r, st)
      → FarGoes w (record w.far { send_storage = st })
  far_draw none now st k live ran =
      far_takes k (far_sends live (draws_none now st ran)) refl refl refl
  far_draw (some (n, v)) now st k live ran =
      far_takes k (far_sends live (draws now n n v st ran)) refl refl refl

  module _ (positive : 1 ≤ start) where
    pub far_ask :
        {w : Wire} (r : Option ℕ) (now : ℕ) (st : RecvStorage)
        → Kept start begun w
        → w.far.conn_state ≡ ok tt
        → pop_acknowledge w.far.recv_storage now ≡ (r, st)
        → FarGoes w (record w.far { recv_storage = st })
    far_ask none now st k live ran =
        far_takes k (far_receives live (is_quiet now st ran) tt) refl refl refl
    far_ask {w} (some n) now st k live ran =
        let i = window_position start (receiver_of w) - 1 in
        let at : suc i ≡ window_position start (receiver_of w) = omega arith in
        far_takes k (far_receives live (answers now i n st ran) at) refl refl refl

    abbrev pub far_mover : Mover start
    far_mover = record {
      Good = Kept start begun;
      get = λ t. t.far;
      other = λ t. t.near;
      draw = far_draw;
      ask = far_ask;
      fail = λ e told k. far_takes k (far_fails e told) refl refl refl;
    }
