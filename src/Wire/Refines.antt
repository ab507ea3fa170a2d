-- ===== src/Wire/Refines.antt =====
-- stream/inner.rs: each method of a stream is a run of atoms, on either side.
use mdswp.Prelude.{
  ℕ, inl, inr, ◌≢◌, Bool-cases, ◌≤◌, ◌≡◌, refl, ◌∙◌, sym, ap, subst, true, some, none, List, [],
  ◌⊎◌, ◌||◌, ◌&&◌,
}
use mdswp.Util.{ok, done, conn_reset_local}
use mdswp.Send.{is_empty}
use mdswp.Stream.{StreamInner, Effect, error, is_err, reset_stream, stream_state}
use mdswp.Stream.Closing.{finish_wait, drop_stream}
use mdswp.Stream.Closed.{drop_stream_lem}
use mdswp.Link.{Sides}
use mdswp.Wire.{Wire, near_sends, settles}
use mdswp.Link.Whole.{Begins}
use mdswp.Wire.Delivered.{Kept}
use mdswp.Wire.Methods.{Ran, unmoved, write-Ran, flush-Ran}
use mdswp.Wire.Reads.{read-Ran}
use mdswp.Wire.Works.{worker_round-Goes}
use mdswp.Wire.Calls.{
  Call, writes, flushes, finishes_write, waits, reads, near_works, far_works, near_told, far_told,
  near_resets, far_resets, near_drops, far_drops,
}
use mdswp.Wire.Handlers.{
  near_ran, far_ran, near_told-Goes, far_told-Goes, near_fails_to, far_fails_to,
}
use mdswp.Wire.Rounds.{NearGoes, FarGoes, near_mover, far_mover}
use mdswp.Wire.Finishing.{one_act, finish_write-Ran}

waited :
    (s t : StreamInner)
    → finish_wait s ≡ some t
    → (is_empty s.send_storage ≡ true) × (record s { send_finished = true } ≡ t)
unfolding finish_wait
waited s t e = elim (Bool-cases (is_empty s.send_storage)) [
  | inl empty ↦ (empty, some_same (rw empty at e))
  | inr more ↦ absurd (no_none (rw more at e))
]
  where
    some_same :
        some (record s { send_finished = true }) ≡ some t → record s { send_finished = true } ≡ t
    some_same e = cc

    no_none : none ≢ some t
    no_none e = cc

reset_open :
    (s : StreamInner)
    → s.conn_state ≡ ok tt
    → (reset_stream s).1 ≡ (error s conn_reset_local true).0
unfolding reset_stream stream_state
reset_open s live = rw live refl

dropped :
    (s t : StreamInner) (effects : List Effect)
    → drop_stream s ≡ done (t, effects)
    → s ≡ t ⊎ (error s conn_reset_local true).0 ≡ t
dropped s t effects e =
    let out = sym (drop_stream_lem s) ∙ e in
    elim (Bool-cases (is_err s || (s.send_finished && s.recv_finished))) [
      | inl over ↦ let end = rw over at out in inl (cc end)
      | inr unfinished ↦ let end = rw unfinished at out in inr (cc end)
    ]

module _ (start : ℕ) (begun : Sides) (begins : Begins start begun) (positive : 1 ≤ start) where
  pub Call-Ran :
      {w : Wire} {near far : StreamInner} {bytes out : List ℕ}
      → Kept start begun w
      → Call start w near far bytes out
      → Ran start w near far bytes out
  Call-Ran {w} k (writes bytes r s live ran) = write-Ran start w bytes r s live ran
  Call-Ran {w} k (flushes r s live ran) = flush-Ran start w r s live ran
  Call-Ran {w} k (finishes_write r s effects live ran) =
      finish_write-Ran start w s r effects live ran
  Call-Ran {w} k (waits s live ran) =
      let (empty, same) = waited w.near s ran in
      one_act start (near_sends live (settles empty) tt) same refl refl refl
  Call-Ran {w} k (reads size r s live ran) = read-Ran start w size r s live ran
  Call-Ran {w} k (near_works socket now x ran) =
      near_ran start begun begins positive w
        (worker_round-Goes start (near_mover start begun begins) socket now w x k ran)
  Call-Ran {w} k (far_works socket now x ran) =
      far_ran start begun begins positive w
        (worker_round-Goes start (far_mover start begun begins positive) socket now w x k ran)
  Call-Ran {w} k (near_told segment s effects live may ran) =
      near_ran start begun begins positive w
        (near_told-Goes start begun begins positive w segment s effects k live may ran)
  Call-Ran {w} k (far_told segment s effects live may ran) =
      far_ran start begun begins positive w
        (far_told-Goes start begun begins positive w segment s effects k live may ran)
  Call-Ran {w} k (near_resets r s effects live ran) = near_ran start begun begins positive w (
      subst (NearGoes start begun begins w) (sym (reset_open w.near live) ∙ ap (λ q. q.1) ran)
        (near_fails_to start begun begins positive w conn_reset_local true k))
  Call-Ran {w} k (far_resets r s effects live ran) = far_ran start begun begins positive w (
      subst (FarGoes start begun begins w) (sym (reset_open w.far live) ∙ ap (λ q. q.1) ran)
        (far_fails_to start begun begins positive w conn_reset_local true k))
  Call-Ran {w} k (near_drops s effects ran) = elim (dropped w.near s effects ran) [
    | inl same ↦ subst (λ q. Ran start w q w.far [] []) same (unmoved start w)
    | inr failed ↦ near_ran start begun begins positive w (
        subst (NearGoes start begun begins w) failed
          (near_fails_to start begun begins positive w conn_reset_local true k))
  ]
  Call-Ran {w} k (far_drops s effects ran) = elim (dropped w.far s effects ran) [
    | inl same ↦ subst (λ q. Ran start w w.near q [] []) same (unmoved start w)
    | inr failed ↦ far_ran start begun begins positive w (
        subst (FarGoes start begun begins w) failed
          (far_fails_to start begun begins positive w conn_reset_local true k))
  ]
