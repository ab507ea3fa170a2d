-- ===== src/Wire/Carried.antt =====
-- stream/inner.rs: what the atoms of both streams do to the storages is a run of the calls between a
-- sending and a receiving half.
use mdswp.Prelude.{ℕ, ◌≡◌, ◌≢◌, refl, ◌∙◌, sym, subst, Bool, List, [], ◌∷◌, ◌++◌, arith}
use mdswp.Util.{IoError, IoResult, ok, err, done, panic}
use mdswp.Segment.{DataSegment, SequentialSegment, accept, finish, payload, data_try_from}
use mdswp.Send.{SendStorage, push, push_checked, finished_unchecked}
use mdswp.Recv.{RecvStorage, recv}
use mdswp.Stream.{StreamInner, is_err, error, push_bytes}
use mdswp.Stream.Incoming.{take_segment}
use mdswp.Link.{
  Sides, pushes, sends, idles, arrives, delivers, answers, is_quiet, acknowledges, Runs, next,
}
use mdswp.Wire.{
  SendNote, wrote, queued, sent, heard, RecvNote, got, took, gave, answered, SendAtom, appends,
  cuts, cut_refused, finishes, finish_refused, settles, draws, draws_none, hears, RecvAtom, takes,
  copies, Wire, note_send, note_recv, MaySend, MayReceive, Act, near_sends, near_receives,
  near_fails, far_receives, far_sends, far_fails, piece,
}
use mdswp.Wire

-- The halves that face each other, with the storages given.
abbrev pub halves : Wire → SendStorage → RecvStorage → Sides
halves w sender st = record {
  sender = sender;
  pushed = w.pushed;
  packets = w.packets;
  receiver = record { storage = st; output = w.output };
  acks = w.acks;
}

no_panic : {A : Type 0} (a : A) → panic ≢ done a
no_panic a e = cc

pub pushed_bytes :
    (st st' : SendStorage) (bytes : List ℕ) (r : IoResult (Unit {0}))
    → push_bytes st bytes ≡ done (r, st')
    → push st (payload (record { bytes = bytes })) ≡ done (r, st')
unfolding push_bytes data_try_from
pushed_bytes st st' [] r ran = absurd (no_panic (r, st') ran)
pushed_bytes st st' (b ∷ bs) r ran = ground arith

refused_same :
    (st st' : SendStorage) (u : SequentialSegment) (e : IoError)
    → u ≢ accept
    → push st u ≡ done (err e, st')
    → st' ≡ st
unfolding push push_checked
refused_same st st' accept e ne ran = absurd (ne refl)
refused_same st st' finish e ne ran = ground (arith, finished_unchecked st)
refused_same st st' (payload d) e ne ran = ground arith

pub finish_no_accept : finish ≢ accept
finish_no_accept e = cc

pub payload_no_accept : (d : DataSegment) → payload d ≢ accept
payload_no_accept d e = cc

-- An atom of one half leaves the other half alone.
pub record SameRecv (s t : StreamInner) : Type 0 where
  pub state : t.conn_state ≡ s.conn_state
  pub storage : t.recv_storage ≡ s.recv_storage
  pub buffer : t.recv_buffer ≡ s.recv_buffer
  pub finished : t.recv_finished ≡ s.recv_finished

pub record SameSend (s t : StreamInner) : Type 0 where
  pub state : t.conn_state ≡ s.conn_state
  pub storage : t.send_storage ≡ s.send_storage
  pub buffer : t.send_buffer ≡ s.send_buffer

kept :
    (s : StreamInner) (buf : List ℕ) (st : SendStorage) (over : Bool)
    → SameRecv s (record s { send_buffer = buf; send_storage = st; send_finished = over })
kept s buf st over = record { state = refl; storage = refl; buffer = refl; finished = refl }

pub SendAtom-recv : {s t : StreamInner} {note : SendNote} → SendAtom s t note → SameRecv s t
SendAtom-recv {s} (appends bytes) = kept s _ _ _
SendAtom-recv {s} (cuts n st ran) = kept s _ _ _
SendAtom-recv {s} (cut_refused n e st ran) = kept s _ _ _
SendAtom-recv {s} (finishes st ran) = kept s _ _ _
SendAtom-recv {s} (finish_refused e st ran) = kept s _ _ _
SendAtom-recv {s} (settles empty) = kept s _ _ _
SendAtom-recv {s} (draws now i n v st ran) = kept s _ _ _
SendAtom-recv {s} (draws_none now st ran) = kept s _ _ _
SendAtom-recv {s} (hears i n r st ran) = kept s _ _ _

pub taken-SameSend : (s : StreamInner) (v : SequentialSegment) → SameSend s (take_segment s v)
unfolding take_segment
taken-SameSend s accept = record { state = refl; storage = refl; buffer = refl }
taken-SameSend s finish = record { state = refl; storage = refl; buffer = refl }
taken-SameSend s (payload d) = record { state = refl; storage = refl; buffer = refl }

pub taken_storage :
    (s : StreamInner) (v : SequentialSegment) → (take_segment s v).recv_storage ≡ s.recv_storage
unfolding take_segment
taken_storage s accept = refl
taken_storage s finish = refl
taken_storage s (payload d) = refl

pub RecvAtom-send : {s t : StreamInner} {note : RecvNote} → RecvAtom s t note → SameSend s t
RecvAtom-send {s} (Wire.arrives i n v r st ran) = record {
  state = refl;
  storage = refl;
  buffer = refl;
}
RecvAtom-send {s} (takes v st empty more ran) =
    let h = taken-SameSend (record s { recv_storage = st }) v in
    record { state = h.state; storage = h.storage; buffer = h.buffer }
RecvAtom-send {s} (copies n) = record { state = refl; storage = refl; buffer = refl }
RecvAtom-send {s} (Wire.answers now i n st ran) = record {
  state = refl;
  storage = refl;
  buffer = refl;
}
RecvAtom-send {s} (Wire.is_quiet now st ran) = record {
  state = refl;
  storage = refl;
  buffer = refl;
}

-- A stream that has failed is in an error state, and has its buffers.
pub record Failed (s t : StreamInner) : Type 0 where
  pub state : t.conn_state ≢ ok tt
  pub buffer : t.recv_buffer ≡ s.recv_buffer
  pub finished : t.recv_finished ≡ s.recv_finished

pub error-Failed : (s : StreamInner) (e : IoError) (told : Bool) → Failed s (error s e told).0
unfolding error is_err
error-Failed s e told = by_state s.conn_state refl
  where
    by_state : (r : IoResult (Unit {0})) → s.conn_state ≡ r → Failed s (error s e told).0
    by_state (ok u) q = rw q (record { state = λ h. cc; buffer = refl; finished = refl })
    by_state (err f) q = rw q (record { state = λ h. cc; buffer = refl; finished = refl })

module _ (start : ℕ) (begun : Sides) where
  -- The halves as they are when a stream has no error, and as they were before the error.
  pub record Carried (w : Wire) : Type 0 where
    pub sender : SendStorage
    pub st : RecvStorage
    pub runs : Runs start begun (halves w sender st)
    pub sending : w.near.conn_state ≡ ok tt → w.near.send_storage ≡ sender
    pub receiving : w.far.conn_state ≡ ok tt → w.far.recv_storage ≡ st

  sends-Runs :
      (w : Wire) {s : StreamInner} {note : SendNote} (st : RecvStorage)
      → SendAtom w.near s note
      → MaySend start note w s
      → Runs start begun (halves w w.near.send_storage st)
      → Runs start begun (halves (note_send note (record w { near = s })) s.send_storage st)
  sends-Runs w st (appends bytes) may r = r
  sends-Runs w st (cuts n st' ran) may r = next r (
      pushes (payload (piece n w.near.send_buffer)) st' (payload_no_accept _)
        (pushed_bytes w.near.send_storage st' _ (ok tt) ran))
  sends-Runs w st (cut_refused n e st' ran) may r =
      let same =
        refused_same w.near.send_storage st' _ e (payload_no_accept _)
          (pushed_bytes w.near.send_storage st' _ (err e) ran) in
      subst (λ q. Runs start begun (halves w q st)) (sym same) r
  sends-Runs w st (finishes st' ran) may r = next r (pushes finish st' finish_no_accept ran)
  sends-Runs w st (finish_refused e st' ran) may r =
      let same = refused_same w.near.send_storage st' finish e finish_no_accept ran in
      subst (λ q. Runs start begun (halves w q st)) (sym same) r
  sends-Runs w st (settles empty) may r = r
  sends-Runs w st (draws now i n v st' ran) may r =
      next r (sends now i n v st' ran may.0 may.1 may.2)
  sends-Runs w st (draws_none now st' ran) may r = next r (idles now st' ran)
  sends-Runs w st (hears i n x st' ran) may r = next r (acknowledges i n x st' may.0 may.1 ran)

  receives-Runs :
      (w : Wire) {s : StreamInner} {note : RecvNote} (sender : SendStorage)
      → RecvAtom w.far s note
      → MayReceive start note w
      → Runs start begun (halves w sender w.far.recv_storage)
      → Runs start begun (halves (note_recv note (record w { far = s })) sender s.recv_storage)
  receives-Runs w sender (Wire.arrives i n v x st ran) may r =
      let (number, place, low, high) = may in
      let ran' = subst (λ q. recv w.far.recv_storage q v ≡ done (x, st)) number ran in
      next r (arrives i v x st place low high ran')
  receives-Runs w sender (takes v st empty more ran) may r =
      let same = taken_storage (record w.far { recv_storage = st }) v in
      subst (λ q. Runs start begun (halves (record w { output = w.output ++ v ∷ [] }) sender q))
        (sym same) (next r (delivers v st ran))
  receives-Runs w sender (copies n) may r = r
  receives-Runs w sender (Wire.answers now i n st ran) may r = next r (answers now i n st ran may)
  receives-Runs w sender (Wire.is_quiet now st ran) may r = next r (is_quiet now st ran)

  pub Act-Carried : {w t : Wire} → Carried w → Act start w t → Carried t
  Act-Carried {w} c (near_sends {s} {note} live atom may) =
      let r = subst (λ q. Runs start begun (halves w q c.st)) (sym (c.sending live)) c.runs in
      record {
        sender = s.send_storage;
        st = c.st;
        runs = sends-Runs w c.st atom may r;
        sending = λ h. refl;
        receiving = c.receiving;
      }
  Act-Carried {w} c (near_receives {s} live atom) = record {
    sender = c.sender;
    st = c.st;
    runs = c.runs;
    sending = λ h. (RecvAtom-send atom).storage ∙ c.sending live;
    receiving = c.receiving;
  }
  Act-Carried {w} c (near_fails e told) = record {
    sender = c.sender;
    st = c.st;
    runs = c.runs;
    sending = λ h. absurd ((error-Failed w.near e told).state h);
    receiving = c.receiving;
  }
  Act-Carried {w} c (far_receives {s} {note} live atom may) =
      let r = subst (λ q. Runs start begun (halves w c.sender q)) (sym (c.receiving live)) c.runs in
      record {
        sender = c.sender;
        st = s.recv_storage;
        runs = receives-Runs w c.sender atom may r;
        sending = c.sending;
        receiving = λ h. refl;
      }
  Act-Carried {w} c (far_sends {s} live atom) = record {
    sender = c.sender;
    st = c.st;
    runs = c.runs;
    sending = c.sending;
    receiving = λ h. (SendAtom-recv atom).storage ∙ c.receiving live;
  }
  Act-Carried {w} c (far_fails e told) = record {
    sender = c.sender;
    st = c.st;
    runs = c.runs;
    sending = c.sending;
    receiving = λ h. absurd ((error-Failed w.far e told).state h);
  }
