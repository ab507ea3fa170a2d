-- ===== src/Util.antt =====
-- util.rs: the window size, the connection timeout, the errors that the crate makes; and what the
-- Rust code takes from the standard library: `Wrapping<u8>`, `io::Result`, panics, `Instant`.
use mdswp.Prelude.{ℕ, List, ◌+◌, ◌-◌, ◌*◌, ◌%◌, ◌^◌}

-- `Wrapping<u8>` addition and subtraction. A `u8` is a number below 256.
abbrev pub wrapping_add : ℕ → ℕ → ℕ
wrapping_add a b = (a + b) % 256

abbrev pub wrapping_sub : ℕ → ℕ → ℕ
wrapping_sub a b = (a + 256 - b) % 256

abbrev pub window_size : ℕ
window_size = 10

-- A `Duration`, in nanoseconds.
abbrev pub conn_timeout : ℕ
conn_timeout = 3 * 10 ^ 9

-- `Instant::elapsed`, at the time `now`: it saturates at zero.
abbrev pub elapsed : ℕ → ℕ → ℕ
elapsed now since = now - since

-- The kinds of `std::io::ErrorKind` that the crate names, and the others that a socket returns.
pub data ErrorKind : Type 0 where
  addr_not_available broken_pipe connection_aborted connection_reset interrupted : ErrorKind
  invalid_input timed_out unexpected_eof would_block : ErrorKind
  other_kind : ℕ → ErrorKind

-- What is printed, as code points.
abbrev pub Text : Type 0
Text = List ℕ

-- The text of an error, by its template and what is formatted into it.
pub data Message : Type 0 where
  invalid_seq_num : ℕ → ℕ → ℕ → Message
  read_finished reset_by_peer reset_local timed_out_message unexp_establish : Message
  invalid_ack : ℕ → Message
  unexp_seg : Message → Message
  instead_of_accept : Text → Message
  unreliable : Text → Text → Message
  write_finished : Message
  invalid_length invalid_establish invalid_reset invalid_accept invalid_finish : Message
  invalid_acknowledge invalid_data unknown_type no_data data_too_long : Message
  no_address : Message
  foreign : ℕ → Message

pub record IoError : Type 0 where
  pub kind : ErrorKind
  pub message : Message

pub data IoResult {ℓ} (A : Type ℓ) : Type ℓ where
  ok : A → IoResult A
  err : IoError → IoResult A

-- What a call comes to: it returns, it panics, or its loop is not done within the fuel.
pub data Run {ℓ} (A : Type ℓ) : Type ℓ where
  done : A → Run A
  panic : Run A
  hang : Run A

infixl 5 ◌>>=◌
abbrev pub ◌>>=◌ {ℓ κ} : {A : Type ℓ} {B : Type κ} → Run A → (A → Run B) → Run B
done a >>= f = f a
panic >>= f = panic
hang >>= f = hang

-- A copy of an error: the same kind, the same text.
unfoldable pub clone_io_err : IoError → IoError
clone_io_err e = record { kind = e.kind; message = e.message }

abbrev pub conn_invalid_seq_num : ℕ → ℕ → ℕ → IoError
conn_invalid_seq_num seq lower upper = record {
  kind = ErrorKind.broken_pipe;
  message = invalid_seq_num seq lower upper;
}

abbrev pub conn_read_finished : IoError
conn_read_finished = record { kind = ErrorKind.unexpected_eof; message = read_finished }

abbrev pub conn_reset_by_peer : IoError
conn_reset_by_peer = record { kind = ErrorKind.connection_reset; message = reset_by_peer }

abbrev pub conn_reset_local : IoError
conn_reset_local = record { kind = ErrorKind.connection_reset; message = reset_local }

abbrev pub conn_timed_out : IoError
conn_timed_out = record { kind = ErrorKind.timed_out; message = timed_out_message }

abbrev pub conn_unexp_establish : IoError
conn_unexp_establish = record { kind = ErrorKind.broken_pipe; message = unexp_establish }

-- The argument is what is formatted in, a text here.
abbrev pub conn_unexp_seg : Message → IoError
conn_unexp_seg text = record { kind = ErrorKind.broken_pipe; message = unexp_seg text }

-- Both segments come as the texts that `{:?}` prints.
abbrev pub conn_unreliable : Text → Text → IoError
conn_unreliable actual expected = record {
  kind = ErrorKind.broken_pipe;
  message = unreliable expected actual;
}

abbrev pub conn_write_finished : IoError
conn_write_finished = record { kind = ErrorKind.connection_aborted; message = write_finished }
