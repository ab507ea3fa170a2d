-- ===== src/Wire/Datagrams.antt =====
-- listener/inner.rs and stream/inner.rs: the datagrams that come to the listeners of two streams are runs
-- of atoms.
use mdswp.Prelude.{ℕ, ◌≤◌, ◌<◌, ◌≡◌, subst, true, some, List, []}
use mdswp.Util.{ok, done}
use mdswp.Segment.{Segment, try_from}
use mdswp.Stream.{StreamInner}
use mdswp.Listener.{ListenerInner, recv_datagram}
use mdswp.Listener.Sound.{IsSound}
use mdswp.Link.{Sides}
use mdswp.Link.Whole.{Begins}
use mdswp.Wire.{Wire, Acts}
use mdswp.Wire.Delivered.{Kept, Acts-Kept}
use mdswp.Wire.Methods.{Ran, unmoved}
use mdswp.Wire.Calls.{MayTell, MayGet, near_told, far_told}
use mdswp.Wire.Refines.{Call-Ran}
use mdswp.Wire.Handlers.{near_ran, far_ran, near_fails_to, far_fails_to}
use mdswp.Wire.Rounds.{NearGoes, FarGoes}
use mdswp.Wire.Whole.{Begun, Begun-Kept, Begun-positive}
use mdswp.Wire.Hosted.{Heard, unheard, takes_segment, fails, hears_datagram}

-- The listener `l` has the stream `t` at the index `i`, with every connection in order.
pub record Hosts (l : ListenerInner) (i : ℕ) (t : StreamInner) : Type 0 where
  pub sound : IsSound l
  pub old : i < l.next_stream
  pub stored : l.streams i ≡ some t

-- A datagram of any bytes from any sender comes to the listener of one of both streams, which then has
-- the stream `s` in the place of it. A segment from the peer is one that the network may bring.
pub data Comes (start : ℕ) (w : Wire) : StreamInner → StreamInner → Type 0 where
  at_near :
      (l l' : ListenerInner) (bytes : List ℕ) (b n i : ℕ) (s : StreamInner)
      → Hosts l i w.near
      → ((v : Segment) → l.connections b ≡ some i → try_from bytes ≡ ok v → MayTell start w v)
      → recv_datagram l bytes b n ≡ done l'
      → l'.streams i ≡ some s
      → Comes start w s w.far
  at_far :
      (l l' : ListenerInner) (bytes : List ℕ) (b n i : ℕ) (s : StreamInner)
      → Hosts l i w.far
      → ((v : Segment) → l.connections b ≡ some i → try_from bytes ≡ ok v → MayGet start w v)
      → recv_datagram l bytes b n ≡ done l'
      → l'.streams i ≡ some s
      → Comes start w w.near s

module _ (start : ℕ) (begun : Sides) (begins : Begins start begun) (positive : 1 ≤ start) (w : Wire)
    (k : Kept start begun w) (l : ListenerInner) (b i : ℕ) (bytes : List ℕ) (s : StreamInner) where
  near_heard :
      Hosts l i w.near
      → ((v : Segment) → l.connections b ≡ some i → try_from bytes ≡ ok v → MayTell start w v)
      → Heard l b i bytes w.near s
      → Ran start w s w.far [] []
  near_heard h may (unheard same) = subst (λ q. Ran start w q w.far [] []) same (unmoved start w)
  near_heard h may (fails e failed) = near_ran start begun begins positive w (
      subst (NearGoes start begun begins w) failed
        (near_fails_to start begun begins positive w e true k))
  near_heard h may (takes_segment v effects at decoded ran) =
      let live = (h.sound.served b i w.near at h.stored).fine in
      Call-Ran start begun begins positive k (near_told v s effects live (may v at decoded) ran)

  far_heard :
      Hosts l i w.far
      → ((v : Segment) → l.connections b ≡ some i → try_from bytes ≡ ok v → MayGet start w v)
      → Heard l b i bytes w.far s
      → Ran start w w.near s [] []
  far_heard h may (unheard same) = subst (λ q. Ran start w w.near q [] []) same (unmoved start w)
  far_heard h may (fails e failed) = far_ran start begun begins positive w (
      subst (FarGoes start begun begins w) failed
        (far_fails_to start begun begins positive w e true k))
  far_heard h may (takes_segment v effects at decoded ran) =
      let live = (h.sound.served b i w.far at h.stored).fine in
      Call-Ran start begun begins positive k (far_told v s effects live (may v at decoded) ran)

Comes-Ran :
    {start : ℕ} {begun : Sides} {w : Wire} {near far : StreamInner}
    → Begins start begun
    → 1 ≤ start
    → Kept start begun w
    → Comes start w near far
    → Ran start w near far [] []
Comes-Ran {start} {begun} {w} begins positive k (at_near l l' bytes b n i s h may ran after) =
    near_heard start begun begins positive w k l b i bytes s h may
      (hears_datagram l l' b n i bytes w.near s h.stored h.old ran after)
Comes-Ran {start} {begun} {w} begins positive k (at_far l l' bytes b n i s h may ran after) =
    far_heard start begun begins positive w k l b i bytes s h may
      (hears_datagram l l' b n i bytes w.far s h.stored h.old ran after)

-- Two connected streams, after any run of atoms of the threads of both, each in the store of a
-- listener with `IsSound`, which may serve any other connections: what a datagram of any bytes from
-- any sender makes of the stream at its listener is a run of atoms, as long as a segment that comes
-- from the peer itself is one that the network may bring.
pub datagrams_refine :
    {start : ℕ} {begun w : Wire} {near far : StreamInner}
    → Begun start begun
    → Acts start begun w
    → Comes start w near far
    → Ran start w near far [] []
datagrams_refine b acts comes =
    let (sides, begins, k, low) = Begun-Kept b in
    Comes-Ran begins (Begun-positive b) (Acts-Kept _ sides begins k acts) comes
