-- ===== src/Listener/Looks.antt =====
-- listener/inner.rs: `accept_nonblocking` on each branch, and what it takes from the queue.
use mdswp.Prelude.{
  ℕ, suc, ◌≡◌, refl, ◌∙◌, sym, ap, subst, Option, none, some, List, [], ◌∷◌, ◌++◌, length,
  length-append, append-nil, arith, All, positions, cons_tail,
}
use mdswp.Util.{IoError, IoResult, ok, err}
use mdswp.Stream.{SocketAddr, StreamInner, peer_addr_of, stream_state}
use mdswp.Listener.{ListenerInner, listener_is_err, accept_nonblocking}
use mdswp.Listener.Accept.{Accepted, taken, History, InTurn}
use mdswp.Listener.Waiting.{entry, Addressed, Queue, InTurn-err, InTurn-ok}

-- What `accept_nonblocking` does on each branch.
module _ (l : ListenerInner) where
  look_failed :
      (e : IoError)
      → l.state ≡ err e
      → accept_nonblocking l ≡ (err (record { kind = e.kind; message = e.message }), l)
  unfolding accept_nonblocking
  look_failed e h = ground arith

  module _ (u : Unit {0}) (fine : l.state ≡ ok u) where
    look_empty : l.to_accept ≡ [] → accept_nonblocking l ≡ (ok none, l)
    unfolding accept_nonblocking
    look_empty h = ground arith

    module _ (i : ℕ) (rest : List ℕ) (s : StreamInner) (at : l.to_accept ≡ i ∷ rest)
        (there : l.streams i ≡ some s) where
      look_finds :
          (a : SocketAddr)
          → peer_addr_of s ≡ ok a
          → accept_nonblocking l ≡ (ok (some (i, a)), record l { to_accept = rest })
      unfolding accept_nonblocking
      look_finds a h = ground arith

      look_lost :
          (e : IoError)
          → peer_addr_of s ≡ err e
          → accept_nonblocking l ≡ (err e, record l { to_accept = rest })
      unfolding accept_nonblocking
      look_lost e h = ground arith

peer_of : (s : StreamInner) (a : SocketAddr) → peer_addr_of s ≡ ok a → a ≡ s.peer_addr
unfolding peer_addr_of stream_state
peer_of s a e = by_state s.conn_state refl
  where
    by_state : (r : IoResult (Unit {0})) → s.conn_state ≡ r → a ≡ s.peer_addr
    by_state (ok u) h = ground arith
    by_state (err x) h = ground arith

head_waits :
    (h : History) (i : ℕ) (rest : List ℕ)
    → h.listener.to_accept ≡ i ∷ rest
    → Queue h
    → i ∷ rest ≡ positions (λ j. j) (length h.given) (suc (length rest))
head_waits h i rest at v =
    sym at ∙ v.waiting ∙ ap (positions (λ j. j) (length h.given)) (ap length at)

cons_head : {x y : ℕ} {xs ys : List ℕ} → x ∷ xs ≡ y ∷ ys → x ≡ y
cons_head e = cc

-- The first of the queue is taken, with the result in its turn.
taken-Queue :
    (h : History) (i : ℕ) (rest : List ℕ) (r : Accepted)
    → h.listener.to_accept ≡ i ∷ rest
    → Queue h
    → InTurn 0 (h.given ++ r ∷ []) h.opened
    → Queue
        (record h { listener = record h.listener { to_accept = rest }; given = h.given ++ r ∷ [] })
taken-Queue h i rest r at v turns =
    let longer : suc (length h.given) ≡ length (h.given ++ r ∷ []) =
      omega (arith, length-append h.given (r ∷ [])) in
    record {
      counted = omega (arith, ap length at, v.counted, length-append h.given (r ∷ []));
      numbered = v.numbered;
      waiting =
          cons_tail (head_waits h i rest at v)
          ∙ ap (λ k. positions (λ j. j) k (length rest)) longer;
      addressed = (subst (All (Addressed h.listener.streams h.opened)) at v.addressed).1;
      in_turn = turns;
    }

taken_failed : (l : ListenerInner) (e x : IoError) → l.state ≡ err e → taken l (err x) ≡ []
unfolding listener_is_err
taken_failed l e x h = ground arith

taken_lost :
    (l : ListenerInner) (u : Unit {0}) (e : IoError) → l.state ≡ ok u → taken l (err e) ≡ err e ∷ []
unfolding listener_is_err
taken_lost l u e h = ground arith

pub looks-Queue :
    (h : History) (r : IoResult (Option (ℕ × SocketAddr))) (l' : ListenerInner)
    → accept_nonblocking h.listener ≡ (r, l')
    → Queue h
    → Queue (record h { listener = l'; given = h.given ++ taken h.listener r })
looks-Queue h r l' ran v = by_state h.listener.state refl
  where
    Kept : IoResult (Option (ℕ × SocketAddr)) → ListenerInner → Type 0
    Kept q k = Queue (record h { listener = k; given = h.given ++ taken h.listener q })

    answered :
        {q : IoResult (Option (ℕ × SocketAddr))} {k : ListenerInner}
        → accept_nonblocking h.listener ≡ (q, k)
        → Kept q k
        → Kept r l'
    answered e v' = subst (λ z. Kept z.0 z.1) (sym e ∙ ran) v'

    nothing_taken : Queue (record h { given = h.given ++ [] })
    nothing_taken = subst (λ g. Queue (record h { given = g })) (sym (append-nil h.given)) v

    by_peer :
        (u : Unit {0})
        → h.listener.state ≡ ok u
        → (i : ℕ) (rest : List ℕ) → h.listener.to_accept ≡ i ∷ rest
        → (s : StreamInner) → h.listener.streams i ≡ some s
        → entry h.opened i ≡ some s.peer_addr
        → (z : IoResult SocketAddr) → peer_addr_of s ≡ z
        → Kept r l'
    by_peer u fine i rest at s there named (ok a) known =
        let first : i ≡ length h.given = cons_head (head_waits h i rest at v) in
        answered (look_finds h.listener u fine i rest s at there a known) (
          taken-Queue h i rest (ok (i, a)) at v (
            InTurn-ok 0 h.given h.opened i a (omega arith)
              (ap (entry h.opened) (sym first) ∙ named ∙ ap some (sym (peer_of s a known)))
              v.in_turn))
    by_peer u fine i rest at s there named (err e) lost =
        answered (look_lost h.listener u fine i rest s at there e lost) (
          subst
            (λ g. Queue (record h {
              listener = record h.listener { to_accept = rest };
              given = h.given ++ g;
            }))
            (sym (taken_lost h.listener u e fine))
            (taken-Queue h i rest (err e) at v
              (InTurn-err 0 h.given h.opened e (omega (arith, ap length at, v.counted)) v.in_turn)))

    by_queue :
        (u : Unit {0})
        → h.listener.state ≡ ok u
        → (q : List ℕ) → h.listener.to_accept ≡ q
        → Kept r l'
    by_queue u fine [] at = answered (look_empty h.listener u fine at) nothing_taken
    by_queue u fine (i ∷ rest) at =
        let (s, there, named) =
          (subst (All (Addressed h.listener.streams h.opened)) at v.addressed).0 in
        by_peer u fine i rest at s there named (peer_addr_of s) refl

    by_state : (x : IoResult (Unit {0})) → h.listener.state ≡ x → Kept r l'
    by_state (err e) bad = answered (look_failed h.listener e bad) (
        subst (λ g. Queue (record h { given = h.given ++ g }))
          (sym (taken_failed h.listener e _ bad)) nothing_taken)
    by_state (ok u) fine = by_queue u fine h.listener.to_accept refl
