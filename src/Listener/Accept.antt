-- ===== src/Listener/Accept.antt =====
-- listener/inner.rs: `accept`, which waits, and a history of what comes in and what is accepted.
use mdswp.Prelude.{ℕ, ◌+◌, ◌≡◌, Bool, Option, none, some, List, [], ◌∷◌, ◌++◌, All, if◌then◌else◌}
use mdswp.Util.{IoResult, ok, err, Run, done, hang}
use mdswp.Segment.{Segment, establish, try_from}
use mdswp.Stream.{SocketAddr, StreamInner}
use mdswp.Listener.{
  ListenerInner, Datagram, listener_is_err, stream_of, listen_round, accept_nonblocking,
}

-- A connection with its address.
abbrev pub Accepted : Type 0
Accepted = IoResult (ℕ × SocketAddr)

-- `accept`: a look is what others do to the listener before it. `hang` means that the looks are used
-- up.
unfoldable pub accept :
    List (ListenerInner → ListenerInner) → ListenerInner → Run (Accepted × ListenerInner)
accept [] l = hang
accept (others ∷ looks) l =
    let p = accept_nonblocking (others l) in
    elim p.0 [
      | err e ↦ done (err e, p.1)
      | ok found ↦ elim found [ none ↦ accept looks p.1 | some x ↦ done (ok x, p.1) ]
    ]

-- The sender whose datagram opens a connection.
abbrev pub opener : Option (ℕ × StreamInner) → IoResult Segment → SocketAddr → List SocketAddr
opener none (ok (establish n)) a = a ∷ []
opener _ _ a = []

abbrev pub opens : ListenerInner → Datagram → List SocketAddr
opens l (err e) = []
opens l (ok (bytes, a)) =
    if listener_is_err l then [] else opener (stream_of l a) (try_from bytes) a

-- What a look takes from the queue. An error of the listener takes nothing.
abbrev pub taken : ListenerInner → IoResult (Option (ℕ × SocketAddr)) → List Accepted
taken l (ok none) = []
taken l (ok (some x)) = ok x ∷ []
taken l (err e) = if listener_is_err l then [] else err e ∷ []

abbrev pub KeepsPeer : ListenerInner → ListenerInner → ℕ → Type 0
KeepsPeer l l' i =
    (s : StreamInner)
    → l.streams i ≡ some s
    → (s' : StreamInner) × (l'.streams i ≡ some s') × (s'.peer_addr ≡ s.peer_addr)

-- What others do to a listener: streams may change, but a queued one stays, with its peer, and only
-- the thread of the listener queues a connection.
pub record LeavesQueue (l l' : ListenerInner) : Type 0 where
  pub queue : l'.to_accept ≡ l.to_accept
  pub number : l'.next_stream ≡ l.next_stream
  pub peers : All (KeepsPeer l l') l.to_accept

-- `opened` are the senders whose ESTABLISH has opened a connection; `given` is what was taken from the
-- queue.
pub record History : Type 0 where
  pub listener : ListenerInner
  pub opened : List SocketAddr
  pub given : List Accepted

pub data Turn (h : History) : History → Type 0 where
  comes_in :
      (d : Datagram) (n : ℕ) (goes_on : Bool) (l' : ListenerInner)
      → listen_round h.listener d n ≡ done (goes_on, l')
      → Turn h (record h { listener = l'; opened = h.opened ++ opens h.listener d })
  looks_once :
      (r : IoResult (Option (ℕ × SocketAddr))) (l' : ListenerInner)
      → accept_nonblocking h.listener ≡ (r, l')
      → Turn h (record h { listener = l'; given = h.given ++ taken h.listener r })
  changes : (l' : ListenerInner) → LeavesQueue h.listener l' → Turn h (record h { listener = l' })

pub data Turns (h : History) : History → Type 0 where
  none_yet : Turns h h
  turn : {k j : History} → Turns h k → Turn k j → Turns h j

-- Each result in its turn: the connection of the index under the address that has opened it, or an
-- error in its place.
abbrev pub InTurn : ℕ → List Accepted → List SocketAddr → Type 0
InTurn k [] opened = Unit
InTurn k (r ∷ rs) [] = ⊥
InTurn k (ok (i, b) ∷ rs) (a ∷ opened) = (i ≡ k) × (b ≡ a) × InTurn (k + 1) rs opened
InTurn k (err e ∷ rs) (a ∷ opened) = InTurn (k + 1) rs opened
