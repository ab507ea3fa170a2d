-- ===== src/Listener/Accepting.antt =====
-- listener/inner.rs: connections are accepted in the order in which they were opened, each once.
use mdswp.Prelude.{
  ℕ, zero, suc, ◌+◌, ◌≡◌, ◌<◌, refl, ◌∙◌, sym, ap, ap₂, subst, false, some, List, [], ◌∷◌, ◌++◌,
  length, length-append, append-nil, arith, All, All-append, positions, positions-append, ==_true,
  ==_false, ◌==◌,
}
use mdswp.Stream.{SocketAddr, StreamInner}
use mdswp.Listener.{ListenerInner, new_listener, set}
use mdswp.Listener.Accept.{
  opens, History, Turn, comes_in, looks_once, changes, Turns, none_yet, turn, InTurn,
}
use mdswp.Listener.Waiting.{
  entry, Addressed, Queue, InTurn-more, entry-more, entry-last, All-map, changes-Queue,
}
use mdswp.Listener.Leaves.{Arrival, leaves, opens_one}
use mdswp.Listener.Arrivals.{round-Arrival}
use mdswp.Listener.Looks.{looks-Queue}

entry-below : {A : Type 0} (xs : List A) (i : ℕ) (x : A) → entry xs i ≡ some x → i < length xs
entry-below [] i x e = cc
entry-below (y ∷ xs) zero x e = omega arith
entry-below (y ∷ xs) (suc i) x e = let below = entry-below xs i x e in omega arith

opens-Queue :
    (h : History) (l' : ListenerInner) (a : SocketAddr) (s : StreamInner)
    → s.peer_addr ≡ a
    → l'.to_accept ≡ h.listener.to_accept ++ h.listener.next_stream ∷ []
    → l'.next_stream ≡ h.listener.next_stream + 1
    → l'.streams ≡ set h.listener.streams h.listener.next_stream (some s)
    → Queue h
    → Queue (record h { listener = l'; opened = h.opened ++ a ∷ [] })
opens-Queue h l' a s peer q n m v = record {
  counted = omega (
    arith,
    ap length q,
    length-append l.to_accept (l.next_stream ∷ []),
    length-append h.opened (a ∷ []),
    v.counted,
  );
  numbered = omega (arith, n, v.numbered, length-append h.opened (a ∷ []));
  waiting =
      q
      ∙ ap₂ (λ xs k. xs ++ k ∷ []) v.waiting at_next
      ∙ positions-append (λ i. i) (length h.given) (length l.to_accept) 1
      ∙ ap (positions (λ i. i) (length h.given)) longer;
  addressed = subst (All (Addressed l'.streams (h.opened ++ a ∷ []))) (sym q) (
      All-append (Addressed l'.streams (h.opened ++ a ∷ [])) l.to_accept (l.next_stream ∷ [])
        (All-map (Addressed l.streams h.opened) (Addressed l'.streams (h.opened ++ a ∷ [])) old
          l.to_accept v.addressed)
        (new, tt));
  in_turn = InTurn-more 0 h.given h.opened (a ∷ []) v.in_turn;
}
  where
    l : ListenerInner
    l = h.listener

    at_next : l.next_stream ≡ length h.given + length l.to_accept
    at_next = omega (arith, v.numbered, v.counted)

    longer : length l.to_accept + 1 ≡ length l'.to_accept
    longer = omega (arith, ap length q, length-append l.to_accept (l.next_stream ∷ []))

    old : (i : ℕ) → Addressed l.streams h.opened i → Addressed l'.streams (h.opened ++ a ∷ []) i
    old i (t, at, named) =
        let below = entry-below h.opened i t.peer_addr named in
        let differs : (i == l.next_stream) ≡ false =
          ==_false i l.next_stream (λ e. omega (arith, v.numbered)) in
        (t, ap (λ f. f i) m ∙ rw differs at, entry-more h.opened (a ∷ []) i t.peer_addr named)

    new : Addressed l'.streams (h.opened ++ a ∷ []) l.next_stream
    new = (
      s,
      ap (λ f. f l.next_stream) m ∙ rw (==_true l.next_stream l.next_stream refl) refl,
      ap (entry (h.opened ++ a ∷ [])) v.numbered ∙ entry-last h.opened a ∙ ap some (sym peer),
    )

arrives-Queue :
    (h : History) (l' : ListenerInner) (senders : List SocketAddr)
    → Arrival h.listener l' senders
    → Queue h
    → Queue (record h { listener = l'; opened = h.opened ++ senders })
arrives-Queue h l' senders (leaves c) v =
    subst (λ o. Queue (record h { listener = l'; opened = o })) (sym (append-nil h.opened))
      (changes-Queue h l' c v)
arrives-Queue h l' senders (opens_one a s peer q n m) v = opens-Queue h l' a s peer q n m v

Turn-Queue : {h k : History} → Turn h k → Queue h → Queue k
Turn-Queue {h} (comes_in d n goes_on l' ran) v =
    arrives-Queue h l' (opens h.listener d) (round-Arrival h.listener l' d n goes_on ran) v
Turn-Queue {h} (looks_once r l' ran) v = looks-Queue h r l' ran v
Turn-Queue {h} (changes l' c) v = changes-Queue h l' c v

Turns-Queue : {h k : History} → Turns h k → Queue h → Queue k
Turns-Queue none_yet v = v
Turns-Queue (turn ts t) v = Turn-Queue t (Turns-Queue ts v)

-- A new listener.
abbrev pub new_history : History
new_history = record { listener = new_listener; opened = []; given = [] }

new-Queue : Queue new_history
unfolding new_listener
new-Queue = record {
  counted = omega arith;
  numbered = refl;
  waiting = refl;
  addressed = tt;
  in_turn = tt;
}

-- Over any rounds of the thread of a new listener, any calls of `accept_nonblocking`, and whatever else is
-- done that leaves the queue and the peers of the queued streams: each connection that a datagram has
-- opened is accepted at most once, in the order in which they were opened and under the address that
-- has opened it, or the error of its stream is returned in its place; and none is lost: those that are
-- not accepted are queued.
pub accepts_in_order :
    {h : History}
    → Turns new_history h
    → InTurn 0 h.given h.opened × (length h.given + length h.listener.to_accept ≡ length h.opened)
accepts_in_order ts = let v = Turns-Queue ts new-Queue in (v.in_turn, v.counted)
