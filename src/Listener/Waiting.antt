-- ===== src/Listener/Waiting.antt =====
-- listener/inner.rs: the queue of a listener holds what was opened and not yet accepted, in order.
use mdswp.Prelude.{
  ℕ, zero, suc, ◌+◌, ◌≡◌, ◌<◌, refl, ◌∙◌, sym, ap, subst, Option, none, some, List, [], ◌∷◌, ◌++◌,
  length, arith, All, positions,
}
use mdswp.Util.{IoError, ok, err}
use mdswp.Stream.{SocketAddr, StreamInner}
use mdswp.Listener.{ListenerInner}
use mdswp.Listener.Accept.{Accepted, KeepsPeer, LeavesQueue, History, InTurn}

-- What stands at an index.
abbrev pub entry {ℓ} : {A : Type ℓ} → List A → ℕ → Option A
entry [] i = none
entry (x ∷ xs) zero = some x
entry (x ∷ xs) (suc i) = entry xs i

-- A queued connection is there, and its peer is the one that has opened it.
abbrev pub Addressed : (ℕ → Option StreamInner) → List SocketAddr → ℕ → Type 0
Addressed streams opened i =
    (s : StreamInner) × (streams i ≡ some s) × (entry opened i ≡ some s.peer_addr)

-- The queue holds the connections that were opened and not taken, in order.
pub record Queue (h : History) : Type 0 where
  pub counted : length h.given + length h.listener.to_accept ≡ length h.opened
  pub numbered : h.listener.next_stream ≡ length h.opened
  pub waiting :
      h.listener.to_accept ≡ positions (λ i. i) (length h.given) (length h.listener.to_accept)
  pub addressed : All (Addressed h.listener.streams h.opened) h.listener.to_accept
  pub in_turn : InTurn 0 h.given h.opened

pub InTurn-err :
    (k : ℕ) (rs : List Accepted) (opened : List SocketAddr) (e : IoError)
    → length rs < length opened
    → InTurn k rs opened
    → InTurn k (rs ++ err e ∷ []) opened
InTurn-err k [] [] e h v = absurd (omega arith)
InTurn-err k [] (a ∷ opened) e h v = tt
InTurn-err k (ok (i, b) ∷ rs) (a ∷ opened) e h v =
    (v.0, v.1, InTurn-err (k + 1) rs opened e (omega arith) v.2)
InTurn-err k (err x ∷ rs) (a ∷ opened) e h v = InTurn-err (k + 1) rs opened e (omega arith) v
InTurn-err k (ok (i, b) ∷ rs) [] e h v = absurd v
InTurn-err k (err x ∷ rs) [] e h v = absurd v

pub InTurn-ok :
    (k : ℕ) (rs : List Accepted) (opened : List SocketAddr) (i : ℕ) (a : SocketAddr)
    → i ≡ k + length rs
    → entry opened (length rs) ≡ some a
    → InTurn k rs opened
    → InTurn k (rs ++ ok (i, a) ∷ []) opened
InTurn-ok k [] [] i a at e v = cc
InTurn-ok k [] (b ∷ opened) i a at e v = (omega arith, cc, tt)
InTurn-ok k (ok (j, b) ∷ rs) (c ∷ opened) i a at e v =
    (v.0, v.1, InTurn-ok (k + 1) rs opened i a (omega arith) e v.2)
InTurn-ok k (err x ∷ rs) (c ∷ opened) i a at e v = InTurn-ok (k + 1) rs opened i a (omega arith) e v
InTurn-ok k (ok (j, b) ∷ rs) [] i a at e v = absurd v
InTurn-ok k (err x ∷ rs) [] i a at e v = absurd v

-- One more is opened.
pub InTurn-more :
    (k : ℕ) (rs : List Accepted) (opened more : List SocketAddr)
    → InTurn k rs opened
    → InTurn k rs (opened ++ more)
InTurn-more k [] opened more v = tt
InTurn-more k (ok (j, b) ∷ rs) (c ∷ opened) more v =
    (v.0, v.1, InTurn-more (k + 1) rs opened more v.2)
InTurn-more k (err x ∷ rs) (c ∷ opened) more v = InTurn-more (k + 1) rs opened more v
InTurn-more k (ok (j, b) ∷ rs) [] more v = absurd v
InTurn-more k (err x ∷ rs) [] more v = absurd v

pub entry-more :
    {A : Type 0} (xs ys : List A) (i : ℕ) (x : A)
    → entry xs i ≡ some x
    → entry (xs ++ ys) i ≡ some x
entry-more [] ys i x e = cc
entry-more (y ∷ xs) ys zero x e = e
entry-more (y ∷ xs) ys (suc i) x e = entry-more xs ys i x e

pub entry-last : {A : Type 0} (xs : List A) (x : A) → entry (xs ++ x ∷ []) (length xs) ≡ some x
entry-last [] x = refl
entry-last (y ∷ xs) x = entry-last xs x

pub All-map :
    {A : Type 0} (P Q : A → Type 0) → ((x : A) → P x → Q x) → (xs : List A) → All P xs → All Q xs
All-map P Q g [] v = tt
All-map P Q g (x ∷ xs) v = (g x v.0, All-map P Q g xs v.1)

pub All-both :
    {A : Type 0} (P Q R : A → Type 0)
    → ((x : A) → P x → Q x → R x)
    → (xs : List A) → All P xs
    → All Q xs
    → All R xs
All-both P Q R g [] v u = tt
All-both P Q R g (x ∷ xs) v u = (g x v.0 u.0, All-both P Q R g xs v.1 u.1)

-- Whatever leaves the queue alone.
pub changes-Queue :
    (h : History) (l' : ListenerInner)
    → LeavesQueue h.listener l'
    → Queue h
    → Queue (record h { listener = l' })
changes-Queue h l' c v = record {
  counted = rw c.queue v.counted;
  numbered = c.number ∙ v.numbered;
  waiting = rw c.queue v.waiting;
  addressed = subst (All (Addressed l'.streams h.opened)) (sym c.queue) (
      All-both (Addressed h.listener.streams h.opened) (KeepsPeer h.listener l')
        (Addressed l'.streams h.opened)
        (λ i a k. let (s', at, peer) = k a.0 a.1 in (s', at, a.2 ∙ ap some (sym peer)))
        h.listener.to_accept v.addressed c.peers);
  in_turn = v.in_turn;
}
