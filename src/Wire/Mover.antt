-- ===== src/Wire/Mover.antt =====
-- stream/inner.rs: the worker of a stream that can do what the atoms say. The two streams of a
-- connection are instances.
use mdswp.Prelude.{ℕ, ◌≡◌, refl, ◌∙◌, subst, Bool, Option}
use mdswp.Util.{IoError, ok, done}
use mdswp.Segment.{SequentialSegment}
use mdswp.Send.{SendStorage}
use mdswp.Send
use mdswp.Recv.{RecvStorage, pop_acknowledge}
use mdswp.Stream.{StreamInner, error}
use mdswp.Wire.{Wire, Acts, here}
use mdswp.Wire.Methods.{Acts-trans}

-- The stream that `get` gives has come to `s`; `Good` is kept, and the rest of the wire that a worker
-- has nothing to do with.
pub record Reached (start : ℕ) (Good : Wire → Type 0) (get other : Wire → StreamInner) (w : Wire)
    (s : StreamInner) : Type 0 where
  pub later : Wire
  pub acts : Acts start w later
  pub good : Good later
  pub at : get later ≡ s
  pub other_is : other later ≡ other w
  pub written_is : later.written ≡ w.written
  pub read_is : later.bytes_read ≡ w.bytes_read

-- A stream whose worker can take its atoms.
pub record Mover (start : ℕ) : Type 1 where
  pub Good : Wire → Type 0
  pub get : Wire → StreamInner
  pub other : Wire → StreamInner
  pub draw :
      {w : Wire} (r : Option (ℕ × SequentialSegment)) (now : ℕ) (st : SendStorage)
      → Good w
      → (get w).conn_state ≡ ok tt
      → Send.pop (get w).send_storage now ≡ done (r, st)
      → Reached start Good get other w (record (get w) { send_storage = st })
  pub ask :
      {w : Wire} (r : Option ℕ) (now : ℕ) (st : RecvStorage)
      → Good w
      → (get w).conn_state ≡ ok tt
      → pop_acknowledge (get w).recv_storage now ≡ (r, st)
      → Reached start Good get other w (record (get w) { recv_storage = st })
  pub fail :
      {w : Wire} (e : IoError) (told : Bool)
      → Good w
      → Reached start Good get other w (error (get w) e told).0

module _ (start : ℕ) (mover : Mover start) where
  abbrev pub Goes : Wire → StreamInner → Type 0
  Goes w s = Reached start mover.Good mover.get mover.other w s

  pub stay : (w : Wire) → mover.Good w → Goes w (mover.get w)
  stay w good = record {
    later = w;
    acts = here;
    good = good;
    at = refl;
    other_is = refl;
    written_is = refl;
    read_is = refl;
  }

  -- More is done from there.
  pub and_then :
      {w : Wire} {s t : StreamInner}
      → Goes w s
      → ((u : Wire) → mover.Good u → mover.get u ≡ s → Goes u t)
      → Goes w t
  and_then h g =
      let k = g h.later h.good h.at in
      record {
        later = k.later;
        acts = Acts-trans start h.acts k.acts;
        good = k.good;
        at = k.at;
        other_is = k.other_is ∙ h.other_is;
        written_is = k.written_is ∙ h.written_is;
        read_is = k.read_is ∙ h.read_is;
      }

  pub fails_at :
      (u : Wire) (s : StreamInner) (e : IoError) (told : Bool)
      → mover.Good u
      → mover.get u ≡ s
      → Goes u (error s e told).0
  fails_at u s e told good at = subst (λ q. Goes u (error q e told).0) at (mover.fail e told good)
