-- ===== src/Stream/Finish.antt =====
-- stream/inner.rs: rounds of the worker thread end; what becomes of a side that has finished writing.
use mdswp.Prelude.{ℕ, suc, ◌≡◌, true, false, none, some, List, [], ◌∷◌, ◌++◌, length, arith}
use mdswp.Util.{IoResult, ok, Run, done}
use mdswp.Segment.{SequentialSegment, Segment, sequential}
use mdswp.Send.{
  SentSegment, SendStorage, is_empty, try_pop_sent, try_pop_unsent, finished_unchecked,
}
use mdswp.Send
use mdswp.Stream.{StreamInner, Effect, send_to, is_err, is_write_finished, write}
use mdswp.Stream.Due.{IsBounded}
use mdswp.Stream.Conserve.{write_conserves, queued}
use mdswp.Stream.Worker.{Round, send_loop, worker_sends, worker_round}

-- A round of the loop that has returned.
abbrev pub Returns : Run Round → Type 0
Returns out = (r : Round) × (out ≡ done r) × IsBounded (r.1).send_storage

module _ (socket : Segment → IoResult (Unit {0})) (f now : ℕ) (s : StreamInner)
    (effects : List Effect) (st' : SendStorage) where
  abbrev pub popped : StreamInner
  popped = record s { send_storage = st' }

  pub loop_stops :
      Send.pop s.send_storage now ≡ done (none, st')
      → send_loop socket (suc f) now s effects ≡ done (true, popped, effects)
  unfolding send_loop
  loop_stops e = rw e

  module _ (n : ℕ) (v : SequentialSegment)
      (ran : Send.pop s.send_storage now ≡ done (some (n, v), st')) where
    abbrev pub sent_effects : List Effect
    sent_effects = effects ++ send_to s.peer_addr (sequential n v) ∷ []

    pub loop_sends :
        (u : Unit {0})
        → socket (sequential n v) ≡ ok u
        → send_loop socket (suc f) now s effects ≡ send_loop socket f now popped sent_effects
    unfolding send_loop
    loop_sends u fine = rw (ran, fine)

module _ (socket : Segment → IoResult (Unit {0})) where
  pub round_of_finished :
      (now : ℕ) (s : StreamInner) (u : Unit {0})
      → s.conn_state ≡ ok u
      → s.send_finished ≡ true
      → worker_round socket now s ≡ done (false, s, [])
  unfolding worker_round is_err is_write_finished
  round_of_finished now s u fine over = ground arith

  pub round_of_open :
      (now : ℕ) (s : StreamInner) (u : Unit {0})
      → s.conn_state ≡ ok u
      → s.send_finished ≡ false
      → worker_round socket now s ≡ worker_sends socket now s
  unfolding worker_round is_err is_write_finished
  round_of_open now s u fine more = ground arith

  -- Once `send_finished` is set, whatever is written is accepted while nothing waits to be sent,
  -- and the worker has stopped: in no round is anything sent, not even an acknowledgement that
  -- the receiving half has due.
  pub write_after_finish :
      (now : ℕ) (s : StreamInner) (bytes : List ℕ)
      → s.conn_state ≡ ok tt
      → s.send_finished ≡ true
      → is_empty s.send_storage ≡ true
      → (s' : StreamInner) × (write s bytes ≡ done (ok (length bytes), s'))
        × (worker_round socket now s ≡ done (false, s, []))
        × (worker_round socket now s' ≡ done (false, s', []))
  unfolding finished_unchecked
  write_after_finish now s bytes fine over empty =
      let unfinished : finished_unchecked s.send_storage ≡ done false = rw empty in
      let (ds, rest, wrote, kept, sizes, short) = write_conserves s fine unfinished bytes in
      (
        queued s ds rest,
        wrote,
        round_of_finished now s tt fine over,
        round_of_finished now (queued s ds rest) tt fine over,
      )
