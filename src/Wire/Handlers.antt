-- ===== src/Wire/Handlers.antt =====
-- stream/inner.rs: a segment that comes in is a run of atoms, on either side.
use mdswp.Prelude.{ℕ, ◌≤◌, ◌≡◌, refl, ◌∙◌, sym, subst, Bool, true, List, [], append-nil}
use mdswp.Util.{IoError, IoResult, ok, err, done}
use mdswp.Segment.{SequentialSegment, Segment, establish, reset, acknowledge, sequential}
use mdswp.Stream.{StreamInner, Effect, error}
use mdswp.Stream.Incoming.{recv_acknowledge, recv_sequential, recv_segment, after_storage}
use mdswp.Stream.Handed.{acknowledged_by, received_by, outcome}
use mdswp.Link.{Sides}
use mdswp.Wire.{
  Wire, near_sends, near_receives, near_fails, far_sends, far_receives, far_fails, hears, arrives,
  heard, got, MaySend, MayReceive,
}
use mdswp.Link.Whole.{Begins}
use mdswp.Wire.Delivered.{Kept}
use mdswp.Wire.Methods.{Ran}
use mdswp.Wire.Mover.{and_then, fails_at}
use mdswp.Wire.Calls.{MayTell, MayGet}
use mdswp.Wire.Rounds.{NearGoes, FarGoes, near_takes, far_takes, near_mover, far_mover}

module _ (start : ℕ) (begun : Sides) (begins : Begins start begun) (positive : 1 ≤ start) where
  pub near_ran :
      (w : Wire) {s : StreamInner} → NearGoes start begun begins w s → Ran start w s w.far [] []
  near_ran w h = record {
    later = h.later;
    acts = h.acts;
    near_is = h.at;
    far_is = h.other_is;
    written_is = h.written_is ∙ sym (append-nil w.written);
    read_is = h.read_is ∙ sym (append-nil w.bytes_read);
  }

  pub far_ran :
      (w : Wire) {s : StreamInner} → FarGoes start begun begins w s → Ran start w w.near s [] []
  far_ran w h = record {
    later = h.later;
    acts = h.acts;
    near_is = h.other_is;
    far_is = h.at;
    written_is = h.written_is ∙ sym (append-nil w.written);
    read_is = h.read_is ∙ sym (append-nil w.bytes_read);
  }

  pub near_fails_to :
      (w : Wire) (e : IoError) (told : Bool)
      → Kept start begun w
      → NearGoes start begun begins w (error w.near e told).0
  near_fails_to w e told k = near_takes start begun begins k (near_fails e told) refl refl refl

  pub far_fails_to :
      (w : Wire) (e : IoError) (told : Bool)
      → Kept start begun w
      → FarGoes start begun begins w (error w.far e told).0
  far_fails_to w e told k = far_takes start begun begins k (far_fails e told) refl refl refl

  -- An error of the storage becomes the error of the stream.
  near_stores :
      (w : Wire) (s : StreamInner) (r : IoResult (Unit {0}))
      → NearGoes start begun begins w s
      → NearGoes start begun begins w (after_storage r s).0
  near_stores w s (ok u) h = h
  near_stores w s (err e) h =
      and_then start (near_mover start begun begins) h
        (λ u g a. fails_at start (near_mover start begun begins) u s e true g a)

  far_stores :
      (w : Wire) (s : StreamInner) (r : IoResult (Unit {0}))
      → FarGoes start begun begins w s
      → FarGoes start begun begins w (after_storage r s).0
  far_stores w s (ok u) h = h
  far_stores w s (err e) h =
      and_then start (far_mover start begun begins positive) h
        (λ u g a. fails_at start (far_mover start begun begins positive) u s e true g a)

  near_hears :
      (w : Wire) (t : StreamInner) (i n : ℕ) (effects : List Effect)
      → Kept start begun w
      → w.near.conn_state ≡ ok tt
      → MaySend start (heard i n) w w.near
      → recv_acknowledge w.near n ≡ done (t, effects)
      → NearGoes start begun begins w t
  near_hears w t i n effects k live may out =
      let (r, st, ran, same) = acknowledged_by w.near t n effects out in
      subst (NearGoes start begun begins w) (sym same) (
        near_stores w _ r (
          near_takes start begun begins k (near_sends live (hears i n r st ran) may) refl refl
            refl))

  near_gets :
      (w : Wire) (t : StreamInner) (n : ℕ) (v : SequentialSegment) (effects : List Effect)
      → Kept start begun w
      → w.near.conn_state ≡ ok tt
      → recv_sequential w.near n v ≡ done (t, effects)
      → NearGoes start begun begins w t
  near_gets w t n v effects k live out =
      let (r, st, ran, same) = received_by w.near t n v effects out in
      subst (NearGoes start begun begins w) (sym same) (
        near_stores w _ r (
          near_takes start begun begins k (near_receives live (arrives n n v r st ran)) refl refl
            refl))

  far_hears :
      (w : Wire) (t : StreamInner) (n : ℕ) (effects : List Effect)
      → Kept start begun w
      → w.far.conn_state ≡ ok tt
      → recv_acknowledge w.far n ≡ done (t, effects)
      → FarGoes start begun begins w t
  far_hears w t n effects k live out =
      let (r, st, ran, same) = acknowledged_by w.far t n effects out in
      subst (FarGoes start begun begins w) (sym same) (
        far_stores w _ r
          (far_takes start begun begins k (far_sends live (hears n n r st ran)) refl refl refl))

  far_gets :
      (w : Wire) (t : StreamInner) (i n : ℕ) (v : SequentialSegment) (effects : List Effect)
      → Kept start begun w
      → w.far.conn_state ≡ ok tt
      → MayReceive start (got i n v) w
      → recv_sequential w.far n v ≡ done (t, effects)
      → FarGoes start begun begins w t
  far_gets w t i n v effects k live may out =
      let (r, st, ran, same) = received_by w.far t n v effects out in
      subst (FarGoes start begun begins w) (sym same) (
        far_stores w _ r (
          far_takes start begun begins k (far_receives live (arrives i n v r st ran) may) refl refl
            refl))

  -- A segment that comes in.
  pub near_told-Goes :
      (w : Wire) (segment : Segment) (s : StreamInner) (effects : List Effect)
      → Kept start begun w
      → w.near.conn_state ≡ ok tt
      → MayTell start w segment
      → recv_segment w.near segment ≡ done (s, effects)
      → NearGoes start begun begins w s
  unfolding recv_segment
  near_told-Goes w reset s effects k live may out =
      subst (NearGoes start begun begins w) (outcome out) (near_fails_to w _ _ k)
  near_told-Goes w (establish n) s effects k live may out =
      subst (NearGoes start begun begins w) (outcome out) (near_fails_to w _ _ k)
  near_told-Goes w (acknowledge n) s effects k live may out =
      near_hears w s may.0 n effects k live may.1 out
  near_told-Goes w (sequential n v) s effects k live may out = near_gets w s n v effects k live out

  pub far_told-Goes :
      (w : Wire) (segment : Segment) (s : StreamInner) (effects : List Effect)
      → Kept start begun w
      → w.far.conn_state ≡ ok tt
      → MayGet start w segment
      → recv_segment w.far segment ≡ done (s, effects)
      → FarGoes start begun begins w s
  unfolding recv_segment
  far_told-Goes w reset s effects k live may out =
      subst (FarGoes start begun begins w) (outcome out) (far_fails_to w _ _ k)
  far_told-Goes w (establish n) s effects k live may out =
      subst (FarGoes start begun begins w) (outcome out) (far_fails_to w _ _ k)
  far_told-Goes w (acknowledge n) s effects k live may out = far_hears w s n effects k live out
  far_told-Goes w (sequential n v) s effects k live may out =
      far_gets w s may.0 n v effects k live may.1 out
