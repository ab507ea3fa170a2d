-- ===== src/Listener/Leaves.antt =====
-- listener/inner.rs: what leaves the queue of a listener alone.
use mdswp.Prelude.{
  ℕ, ◌+◌, ◌≡◌, refl, ◌∙◌, sym, ap, inl, inr, Bool, none, some, List, [], ◌∷◌, ◌++◌, arith, All,
  Bool-cases, ◌==◌,
}
use mdswp.Stream.{new_by_peer}
use mdswp.Util.{Run, done}
use mdswp.Stream.{SocketAddr, StreamInner, Effect, remove_connection, send_to}
use mdswp.Listener.{ListenerInner, apply_effect, apply_effects, set, hand_over}
use mdswp.Listener.Waiting.{All-map}
use mdswp.Listener.Accept.{KeepsPeer, LeavesQueue}

-- What a round of the thread does to the queue.
pub data Arrival (l l' : ListenerInner) : List SocketAddr → Type 0 where
  leaves : LeavesQueue l l' → Arrival l l' []
  opens_one :
      (a : SocketAddr) (s : StreamInner)
      → s.peer_addr ≡ a
      → l'.to_accept ≡ l.to_accept ++ l.next_stream ∷ []
      → l'.next_stream ≡ l.next_stream + 1
      → l'.streams ≡ set l.streams l.next_stream (some s)
      → Arrival l l' (a ∷ [])

each_keeps : (l : ListenerInner) (is : List ℕ) → All (KeepsPeer l l) is
each_keeps l [] = tt
each_keeps l (i ∷ is) = ((λ s e. (s, e, refl)), each_keeps l is)

pub same-LeavesQueue : (l : ListenerInner) → LeavesQueue l l
same-LeavesQueue l = record { queue = refl; number = refl; peers = each_keeps l l.to_accept }

pub then-LeavesQueue :
    {l k j : ListenerInner}
    → LeavesQueue l k
    → k.to_accept ≡ j.to_accept
    → k.next_stream ≡ j.next_stream
    → k.streams ≡ j.streams
    → LeavesQueue l j
then-LeavesQueue {l} {k} {j} c q n s = record {
  queue = sym q ∙ c.queue;
  number = sym n ∙ c.number;
  peers =
      All-map (KeepsPeer l k) (KeepsPeer l j)
        (λ i keep t e. let (t', at, peer) = keep t e in (t', sym (ap (λ f. f i) s) ∙ at, peer))
        l.to_accept c.peers;
}

-- One stream is stored anew, with the same peer.
put-LeavesQueue :
    (l : ListenerInner) (i : ℕ) (s t : StreamInner)
    → l.streams i ≡ some s
    → t.peer_addr ≡ s.peer_addr
    → LeavesQueue l (record l { streams = set l.streams i (some t) })
put-LeavesQueue l i s t at peer = record {
  queue = refl;
  number = refl;
  peers = all_put l.to_accept;
}
  where
    put_one : (j : ℕ) → KeepsPeer l (record l { streams = set l.streams i (some t) }) j
    put_one j u e = elim (Bool-cases (j == i)) [
      | inl same ↦
          let where_at : j ≡ i = ground arith in
          let mine : s ≡ u = ground arith in (t, rw same refl, peer ∙ ap (λ q. q.peer_addr) mine)
      | inr other ↦ (u, rw other e, refl)
    ]

    all_put : (is : List ℕ) → All (KeepsPeer l (record l { streams = set l.streams i (some t) })) is
    all_put [] = tt
    all_put (j ∷ is) = (put_one j, all_put is)

effect_queue :
    (l : ListenerInner) (es : List Effect)
    → (l.to_accept ≡ (apply_effects l es).to_accept)
      × (l.next_stream ≡ (apply_effects l es).next_stream)
      × (l.streams ≡ (apply_effects l es).streams)
unfolding apply_effect
effect_queue l [] = (refl, refl, refl)
effect_queue l (remove_connection a ∷ es) =
    effect_queue (record l { connections = set l.connections a none }) es
effect_queue l (send_to a segment ∷ es) =
    effect_queue (record l { sent = l.sent ++ (a, segment) ∷ [] }) es

pub handed-LeavesQueue :
    (l : ListenerInner) (i : ℕ) (s t : StreamInner) (es : List Effect)
    → l.streams i ≡ some s
    → t.peer_addr ≡ s.peer_addr
    → LeavesQueue l (hand_over l i (t, es))
handed-LeavesQueue l i s t es at peer =
    let (q, n, same) = effect_queue (record l { streams = set l.streams i (some t) }) es in
    then-LeavesQueue (put-LeavesQueue l i s t at peer) q n same

pub same_listener : {l k : ListenerInner} → done l ≡ done k → l ≡ k
same_listener e = cc

pub went :
    {b c : Bool} {l k : ListenerInner}
    → ◌≡◌ {A = Run (Bool × ListenerInner)} (done (b, l)) (done (c, k))
    → l ≡ k
went e = cc

pub peer_of_new : (a n m : ℕ) → (new_by_peer a n m).peer_addr ≡ a
unfolding new_by_peer
peer_of_new a n m = refl
