-- ===== src/Wire/Settles.antt =====
-- stream/inner.rs: two streams can always come to rest, whatever the network has lost.
use mdswp.Prelude.{◌≡◌, true, [], ℕ}
use mdswp.Util.{ok}
use mdswp.Send.{is_empty}
use mdswp.Stream.Reading.{bytes_before_finish}
use mdswp.Link.Settle.Low.{Low}
use mdswp.Wire.{Wire, Acts}

-- The network loses all that is on its way.
abbrev pub with_loss : Wire → Wire
with_loss w = record w { packets = []; acks = [] }

-- The streams have come to rest: nothing waits to be sent or to be acknowledged, and all that was
-- queued on one side before a FINISH was read on the other.
pub record Settled (start : ℕ) (w : Wire) : Type 0 where
  pub later : Wire
  pub acts : Acts start (with_loss w) later
  pub near_live : later.near.conn_state ≡ ok tt
  pub far_live : later.far.conn_state ≡ ok tt
  pub at_rest : is_empty later.near.send_storage ≡ true
  pub pushed_is : later.pushed ≡ w.pushed
  pub written_is : later.written ≡ w.written
  pub all_read : later.bytes_read ≡ bytes_before_finish w.pushed
