-- ===== src/Tests/Balance.antt =====
-- src/utils/coordinator on concrete loads.
use tpst.Prelude.{◌≡◌, refl, [], ◌∷◌, ℤ, pos, ◌-ℤ◌, codes, ok, err, bad_index}
use tpst.StdMap.{bytes_key, find, find_or}
use tpst.Coordinator.Status.{StatusMap, redistribute_status_map}
use tpst.Coordinator.Status.Total.{total, redistribute-InOrder, fake_redistribute-total}
use tpst.Coordinator.Plan.{
  SubMeta, generate_plan, plan_round, plan_loop, plan_sorted, fake_redistribute_by_plan,
}

abbrev meta : ℤ → SubMeta
meta n = record { server_addr = []; sub_number = n }

-- Loads 10, 2, 0: the average rounds up to 4.
plan_tests :
    (plan_sorted [] (pos 4) (meta (pos 10) ∷ meta (pos 2) ∷ meta (pos 0) ∷ [])
      ≡ ok (generate_plan [] [] [] (pos 2) ∷ generate_plan [] [] [] (pos 4) ∷ []))
    × (plan_sorted [] (pos 5) (meta (pos 9) ∷ meta (pos 9) ∷ meta (pos 0) ∷ meta (pos 0) ∷ [])
        ≡ err bad_index)
unfolding plan_sorted plan_loop plan_round ◌-ℤ◌
plan_tests = (refl, refl)

-- Five subscriptions to `T1` on the server `a`.
abbrev status : StatusMap
status = redistribute_status_map (codes "T1") (codes "a") (pos 5) []

fake_redistribute-total_example :
    total (codes "T1") (
      fake_redistribute_by_plan
        (generate_plan (codes "T1") (codes "a") (codes "b") (pos 2) ∷ [])
        status)
    ≡ total (codes "T1") status
unfolding find_or find
fake_redistribute-total_example =
    fake_redistribute-total (generate_plan (codes "T1") (codes "a") (codes "b") (pos 2) ∷ []) status
      (λ event. redistribute-InOrder event (codes "T1") (codes "a") (pos 5) [] tt) (codes "T1")
