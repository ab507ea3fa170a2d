-- ===== src/Wire/Works.antt =====
-- stream/inner.rs: a round of the worker is a run of atoms, for a stream that can do them.
use mdswp.Prelude.{
  ℕ, zero, suc, ◌≡◌, ◌≢◌, refl, ◌∙◌, sym, subst, Bool, true, false, Option, none, some, List, [],
  ◌∷◌, ◌++◌, arith,
}
use mdswp.Util.{IoError, IoResult, ok, err, Run, done, panic, hang}
use mdswp.Segment.{SequentialSegment, Segment, acknowledge, sequential}
use mdswp.Send.{SendStorage}
use mdswp.Send
use mdswp.Recv.{RecvStorage, pop_acknowledge}
use mdswp.Stream.{StreamInner, Effect, send_to, error, is_err, stream_state, is_write_finished}
use mdswp.Stream.Worker.{
  Round, send_loop, after_acknowledge, send_acknowledge, worker_sends, worker_round,
}
use mdswp.Wire.{Wire}
use mdswp.Wire.Mover.{Mover, Goes, stay, and_then, fails_at}

module _ (socket : Segment → IoResult (Unit {0})) (f now : ℕ) (s : StreamInner)
    (effects : List Effect) where
  loop_none :
      (st : SendStorage)
      → Send.pop s.send_storage now ≡ done (none, st)
      → send_loop socket (suc f) now s effects
        ≡ done (true, record s { send_storage = st }, effects)
  unfolding send_loop
  loop_none st e = rw e refl

  loop_stops : Send.pop s.send_storage now ≡ panic → send_loop socket (suc f) now s effects ≡ panic
  unfolding send_loop
  loop_stops e = rw e refl

  loop_hangs : Send.pop s.send_storage now ≡ hang → send_loop socket (suc f) now s effects ≡ hang
  unfolding send_loop
  loop_hangs e = rw e refl

  module _ (n : ℕ) (v : SequentialSegment) (st : SendStorage)
      (e : Send.pop s.send_storage now ≡ done (some (n, v), st)) where
    loop_sends :
        (u : Unit {0})
        → socket (sequential n v) ≡ ok u
        → send_loop socket (suc f) now s effects
          ≡ send_loop socket f now
              (record s { send_storage = st })
              (effects ++ send_to s.peer_addr (sequential n v) ∷ [])
    unfolding send_loop
    loop_sends u h = rw (e, h) refl

    loop_fails :
        (x : IoError)
        → socket (sequential n v) ≡ err x
        → send_loop socket (suc f) now s effects
          ≡ done (
            false,
            (error (record s { send_storage = st }) x true).0,
            (effects ++ send_to s.peer_addr (sequential n v) ∷ [])
                ++ (error (record s { send_storage = st }) x true).1,
          )
    unfolding send_loop
    loop_fails x h = rw (e, h) refl

loop_zero :
    (socket : Segment → IoResult (Unit {0})) (now : ℕ) (s : StreamInner) (effects : List Effect)
    (x : Round)
    → send_loop socket zero now s effects ≢ done x
unfolding send_loop
loop_zero socket now s effects x e = cc

round_state :
    {g : Bool} {s : StreamInner} {effects : List Effect} {x : Round}
    → done (g, s, effects) ≡ done x
    → s ≡ x.1
round_state e = cc

module _ (socket : Segment → IoResult (Unit {0})) (now : ℕ) (s : StreamInner) where
  round_err : (e : IoError) → s.conn_state ≡ err e → worker_round socket now s ≡ done (false, s, [])
  unfolding worker_round is_err
  round_err e h = ground arith

  round_over :
      s.conn_state ≡ ok tt
      → s.send_finished ≡ true
      → worker_round socket now s ≡ done (false, s, [])
  unfolding worker_round is_err is_write_finished stream_state
  round_over h o = ground arith

  round_open :
      s.conn_state ≡ ok tt
      → s.send_finished ≡ false
      → worker_round socket now s ≡ worker_sends socket now s
  unfolding worker_round is_err is_write_finished stream_state
  round_open h o = ground arith

module _ (start : ℕ) (mover : Mover start) where
  module _ (socket : Segment → IoResult (Unit {0})) (now : ℕ) where
    send_loop-Goes :
        (f : ℕ) (w : Wire) (s : StreamInner) (effects : List Effect) (x : Round)
        → mover.Good w
        → mover.get w ≡ s
        → s.conn_state ≡ ok tt
        → send_loop socket f now s effects ≡ done x
        → Goes start mover w x.1
    send_loop-Goes zero w s effects x good at live out =
        absurd (loop_zero socket now s effects x out)
    send_loop-Goes (suc f) w s effects x good at live out =
        by_pop (λ u q more e a b c. send_loop-Goes f u q more x a b c e) _ refl
      where
        drawn :
            (r : Option (ℕ × SequentialSegment)) (st : SendStorage)
            → Send.pop s.send_storage now ≡ done (r, st)
            → Goes start mover w (record s { send_storage = st })
        drawn r st e =
            subst
              (λ q.
                q.conn_state ≡ ok tt
                → Send.pop q.send_storage now ≡ done (r, st)
                → Goes start mover w (record q { send_storage = st }))
              at (λ a b. mover.draw r now st good a b) live e

        by_pop :
            ((u : Wire) (q : StreamInner)
              → (more : List Effect) → send_loop socket f now q more ≡ done x
              → mover.Good u
              → mover.get u ≡ q
              → q.conn_state ≡ ok tt
              → Goes start mover u x.1)
            → (p : Run (Option (ℕ × SequentialSegment) × SendStorage))
            → Send.pop s.send_storage now ≡ p
            → Goes start mover w x.1
        by_pop again (done (none, st)) e =
            subst (Goes start mover w)
              (round_state (sym (loop_none socket f now s effects st e) ∙ out)) (drawn none st e)
        by_pop again (done (some (n, v), st)) e = by_socket (socket (sequential n v)) refl
          where
            by_socket :
                (a : IoResult (Unit {0})) → socket (sequential n v) ≡ a → Goes start mover w x.1
            by_socket (ok u) h = and_then start mover (drawn (some (n, v)) st e) (λ t good' at'.
                again t _ _ (sym (loop_sends socket f now s effects n v st e u h) ∙ out) good' at'
                  live)
            by_socket (err y) h =
                subst (Goes start mover w)
                  (round_state (sym (loop_fails socket f now s effects n v st e y h) ∙ out))
                  (and_then start mover (drawn (some (n, v)) st e)
                    (λ t good' at'. fails_at start mover t _ y true good' at'))
        by_pop again panic e = let end = sym (loop_stops socket f now s effects e) ∙ out in cc
        by_pop again hang e = let end = sym (loop_hangs socket f now s effects e) ∙ out in cc

    acknowledged-Goes :
        (w : Wire) (n : ℕ) (s : StreamInner) (a : IoResult (Unit {0})) (x : Round)
        → mover.Good w
        → mover.get w ≡ s
        → s.conn_state ≡ ok tt
        → after_acknowledge socket n now s a ≡ done x
        → Goes start mover w x.1
    unfolding after_acknowledge
    acknowledged-Goes w n s (ok u) x good at live out = send_loop-Goes 21 w s _ x good at live out
    acknowledged-Goes w n s (err e) x good at live out =
        subst (Goes start mover w) (round_state out) (fails_at start mover w s e true good at)

    -- Behind the tests of a round.
    worker_sends-Goes :
        (w : Wire) (x : Round)
        → mover.Good w
        → (mover.get w).conn_state ≡ ok tt
        → worker_sends socket now (mover.get w) ≡ done x
        → Goes start mover w x.1
    unfolding worker_sends send_acknowledge
    worker_sends-Goes w x good live out = by_ask _ _ refl out
      where
        by_ask :
            (r : Option ℕ) (st : RecvStorage)
            → pop_acknowledge (mover.get w).recv_storage now ≡ (r, st)
            → send_acknowledge socket now (record (mover.get w) { recv_storage = st }) r ≡ done x
            → Goes start mover w x.1
        by_ask none st e go =
            and_then start mover (mover.ask none now st good live e)
              (λ u g a. send_loop-Goes 21 u _ [] x g a live go)
        by_ask (some n) st e go =
            and_then start mover (mover.ask (some n) now st good live e)
              (λ u g a. acknowledged-Goes u n _ (socket (acknowledge n)) x g a live go)

    stays :
        (w : Wire) (x : Round) {g : Bool} {effects : List Effect}
        → mover.Good w
        → ◌≡◌ {A = Run Round} (done (g, mover.get w, effects)) (done x)
        → Goes start mover w x.1
    stays w x good e = subst (Goes start mover w) (round_state e) (stay start mover w good)

    -- A round of the worker that returns is a run of atoms.
    pub worker_round-Goes :
        (w : Wire) (x : Round)
        → mover.Good w
        → worker_round socket now (mover.get w) ≡ done x
        → Goes start mover w x.1
    worker_round-Goes w x good out =
        by_state (mover.get w).conn_state (mover.get w).send_finished refl refl
      where
        by_state :
            (a : IoResult (Unit {0})) (over : Bool)
            → (mover.get w).conn_state ≡ a
            → (mover.get w).send_finished ≡ over
            → Goes start mover w x.1
        by_state (err e) over h o =
            stays w x good (sym (round_err socket now (mover.get w) e h) ∙ out)
        by_state (ok u) true h o =
            stays w x good (sym (round_over socket now (mover.get w) h o) ∙ out)
        by_state (ok u) false h o =
            worker_sends-Goes w x good h (sym (round_open socket now (mover.get w) h o) ∙ out)
