-- ===== src/Stream.antt =====
-- stream/inner.rs: one side of a connection. The locks are taken one after another in each method,
-- so a method is a function of the whole state; its result is followed by the new state and by
-- what it asks of the listener. The handle of the worker thread is left out.
pub mod Buffer
pub mod Conserve
pub mod Split
pub mod Incoming
pub mod Handed
pub mod Worker
pub mod Due
pub mod Finish
pub mod Round
pub mod Errors
pub mod Reading
pub mod Copying
pub mod Closing
pub mod Closed
mod Tests
use mdswp.Prelude.{
  ℕ, zero, suc, ◌+◌, Bool, true, false, not, ◌&&◌, ◌||◌, Option, none, some, List, [], ◌∷◌, ◌++◌,
  length, take, drop, min, ltb, ◌==◌, if◌then◌else◌,
}
use mdswp.Util.{
  IoError, IoResult, ok, err, Run, done, panic, hang, ◌>>=◌, clone_io_err, conn_reset_local,
  conn_reset_by_peer, conn_unexp_establish, conn_read_finished,
}
use mdswp.Segment.{
  max_data_len, DataSegment, SequentialSegment, accept, finish, payload, Segment, establish, reset,
  acknowledge, sequential, data_try_from,
}
use mdswp.Send.{SendStorage, is_empty, push}
use mdswp.Send
use mdswp.Recv.{RecvStorage, recv, pop}
use mdswp.Recv

-- A `SocketAddr`; only its identity matters here.
abbrev pub SocketAddr : Type 0
SocketAddr = ℕ

pub record StreamInner : Type 0 where
  pub peer_addr : SocketAddr
  pub conn_state : IoResult (Unit {0})
  pub send_buffer : List ℕ
  pub send_storage : SendStorage
  pub send_finished : Bool
  pub recv_buffer : List ℕ
  pub recv_storage : RecvStorage
  pub recv_finished : Bool

-- What a stream does to its listener: `_remove_connection` and `_send_to`.
pub data Effect : Type 0 where
  remove_connection : SocketAddr → Effect
  send_to : SocketAddr → Segment → Effect

unfoldable pub new_by_peer : SocketAddr → ℕ → ℕ → StreamInner
new_by_peer peer_addr establish_seq_num accept_seq_num = record {
  peer_addr = peer_addr;
  conn_state = ok tt;
  send_buffer = [];
  send_storage = Send.new_by_peer accept_seq_num;
  send_finished = false;
  recv_buffer = [];
  recv_storage = Recv.new_by_peer establish_seq_num;
  recv_finished = false;
}

unfoldable pub new_by_local : SocketAddr → ℕ → ℕ → StreamInner
new_by_local peer_addr establish_seq_num accept_seq_num = record {
  peer_addr = peer_addr;
  conn_state = ok tt;
  send_buffer = [];
  send_storage = Send.new_by_local establish_seq_num;
  send_finished = false;
  recv_buffer = [];
  recv_storage = Recv.new_by_local accept_seq_num;
  recv_finished = false;
}

abbrev pub result_is_err {ℓ} : {A : Type ℓ} → IoResult A → Bool
result_is_err (ok a) = false
result_is_err (err e) = true

unfoldable pub is_err : StreamInner → Bool
is_err s = result_is_err s.conn_state

unfoldable pub stream_state : StreamInner → IoResult (Unit {0})
unfolding clone_io_err
stream_state s = elim s.conn_state [ ok _ ↦ ok tt | err e ↦ err (clone_io_err e) ]

abbrev pub map_result {ℓ κ} : {A : Type ℓ} {B : Type κ} → IoResult A → B → IoResult B
map_result (ok a) b = ok b
map_result (err e) b = err e

unfoldable pub peer_addr_of : StreamInner → IoResult SocketAddr
unfolding stream_state
peer_addr_of s = map_result (stream_state s) s.peer_addr

-- `local_addr`, from what the socket of the listener answers
unfoldable pub local_addr_of : StreamInner → IoResult SocketAddr → IoResult SocketAddr
unfolding stream_state
local_addr_of s answer = elim (stream_state s) [ ok _ ↦ answer | err e ↦ err e ]

unfoldable pub is_write_finished : StreamInner → IoResult Bool
unfolding stream_state
is_write_finished s = map_result (stream_state s) s.send_finished

unfoldable pub is_read_finished : StreamInner → IoResult Bool
unfolding stream_state
is_read_finished s = map_result (stream_state s) s.recv_finished

-- `error`: the first error is kept, the storages are cleared, and the listener forgets the peer.
unfoldable pub error : StreamInner → IoError → Bool → StreamInner × List Effect
unfolding is_err
error s e send_reset = if is_err s then (s, []) else (
  record s {
    conn_state = err e;
    send_storage = Send.clear s.send_storage;
    recv_storage = Recv.clear s.recv_storage;
  },
  remove_connection s.peer_addr
      ∷ (if send_reset then send_to s.peer_addr Segment.reset ∷ [] else []),
)

-- `MdswpStream::reset`, a public method
unfoldable pub reset_stream : StreamInner → IoResult (Unit {0}) × StreamInner × List Effect
unfolding stream_state
reset_stream s = elim (stream_state s) [
  | err e ↦ (err e, s, [])
  | ok _ ↦ let (s', effects) = error s conn_reset_local true in (ok tt, s', effects)
]

-- `bytes[..].try_into().unwrap()`, and `push`
unfoldable pub push_bytes : SendStorage → List ℕ → Run (IoResult (Unit {0}) × SendStorage)
push_bytes st bytes = elim (data_try_from bytes) [ err _ ↦ panic | ok d ↦ push st (payload d) ]

-- The loop of `write`: full segments go to the storage.
unfoldable pub write_loop :
    ℕ → List ℕ → SendStorage → Run (IoResult (Unit {0}) × List ℕ × SendStorage)
write_loop zero send_buf st = hang
write_loop (suc f) send_buf st =
    let round = push_bytes st (take max_data_len send_buf) >>= (λ p. elim p.0 [
      | err e ↦ done (err e, drop max_data_len send_buf, p.1)
      | ok _ ↦ write_loop f (drop max_data_len send_buf) p.1
    ]) in
    if ltb (length send_buf) max_data_len then done (ok tt, send_buf, st) else round

abbrev pub with_send : StreamInner → List ℕ → SendStorage → StreamInner
with_send s send_buf st = record s { send_buffer = send_buf; send_storage = st }

-- The fuel is one round for each byte, and one to stop.
unfoldable pub write : StreamInner → List ℕ → Run (IoResult ℕ × StreamInner)
unfolding stream_state
write s buf = elim (stream_state s) [
  | err e ↦ done (err e, s)
  | ok _ ↦
      let send_buf = s.send_buffer ++ buf in
      write_loop (suc (length send_buf)) send_buf s.send_storage >>= λ p.
      done (map_result p.0 (length buf), with_send s p.1 p.2)
]

-- The loop of `flush`: all bytes go to the storage, in segments that are full but for the last.
unfoldable pub flush_loop :
    ℕ → List ℕ → SendStorage → Run (IoResult (Unit {0}) × List ℕ × SendStorage)
flush_loop zero send_buf st = hang
flush_loop (suc f) send_buf st =
    let n = min max_data_len (length send_buf) in
    let round = push_bytes st (take n send_buf) >>= (λ p. elim p.0 [
      | err e ↦ done (err e, drop n send_buf, p.1)
      | ok _ ↦ flush_loop f (drop n send_buf) p.1
    ]) in
    if ltb 0 (length send_buf) then round else done (ok tt, send_buf, st)

unfoldable pub flush : StreamInner → Run (IoResult (Unit {0}) × StreamInner)
unfolding stream_state
flush s = elim (stream_state s) [
  | err e ↦ done (err e, s)
  | ok _ ↦ flush_loop (suc (length s.send_buffer)) s.send_buffer s.send_storage >>= λ p.
      done (p.0, with_send s p.1 p.2)
]
