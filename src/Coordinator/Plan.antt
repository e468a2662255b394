-- ===== src/Coordinator/Plan.antt =====
-- `generatePlanForEvent` of src/utils/coordinator/coordinator.cpp.
pub mod Spec
pub mod Ends
pub mod Sorted
use tpst.Prelude.{
  ℕ, zero, suc, ◌+◌, ◌≡◌, refl, Bool, true, false, List, [], ◌∷◌, ◌++◌, Option, none, some, ℤ, pos,
  negsuc, ◌-ℤ◌, ◌+ℤ◌, leb_ℤ, ltb_ℤ, Bytes, codes, Result, ok, err, ◌>>=◌, bad_index, out_of_fuel,
  length, get_elem?, ltb, if◌then◌else◌,
}
use tpst.StdMap.{bytes_key, Map, find_or, touch}
use tpst.Utils.StrParse.{or_fail}
use tpst.Coordinator.Double.{Double}
use tpst.Coordinator.Status.{StatusMap, redistribute_status_map, get_average}

pub record SubMeta : Type 0 where
  pub server_addr : Bytes
  pub sub_number : ℤ

pub record Plan : Type 0 where
  pub src_addr : Bytes
  pub dest_addr : Bytes
  pub move_subscription : Bytes
  pub move_number : ℤ

abbrev pub generate_plan : Bytes → Bytes → Bytes → ℤ → Plan
generate_plan event src dest num = record {
  src_addr = src;
  dest_addr = dest;
  move_subscription = event;
  move_number = num;
}

-- The first loop of `generatePlanForEvent`.
unfoldable pub sub_metas : Map Bytes ℤ → List SubMeta
sub_metas [] = []
sub_metas ((addr, n) ∷ servers) = record { server_addr = addr; sub_number = n } ∷ sub_metas servers

-- The variables that the planning loop changes.
pub record Cursor : Type 0 where
  pub p1 : ℕ
  pub p2 : ℕ
  pub plans : List Plan

module _ (event : Bytes) (new_avg : ℤ) where
  -- The branch on `supply >= needNum`: the destination is served and left, or the source is.
  pub plan_pair : SubMeta → SubMeta → Cursor → Cursor
  plan_pair m1 m2 c =
      let supply = m1.sub_number -ℤ new_avg in
      let need_num = new_avg -ℤ m2.sub_number in
      if leb_ℤ need_num supply
      then (record c {
        p2 = suc c.p2;
        plans = c.plans ++ generate_plan event m1.server_addr m2.server_addr need_num ∷ [];
      })
      else (record c {
        p1 = suc c.p1;
        plans = c.plans ++ generate_plan event m1.server_addr m2.server_addr supply ∷ [];
      })

  -- One round, at `subMetaList[p2]`.
  unfoldable pub plan_round : List SubMeta → SubMeta → Cursor → Result Cursor
  unfolding plan_pair
  plan_round metas m2 c =
      if leb_ℤ new_avg m2.sub_number
      then ok (record c { p2 = suc c.p2 })
      else (do m1 ← or_fail (get_elem? metas c.p1) bad_index; ok (plan_pair m1 m2 c))

  -- `while (p2 < size)`, one unit of fuel a round.
  unfoldable pub plan_loop : ℕ → List SubMeta → Cursor → Result (List Plan)
  plan_loop zero metas c = if ltb c.p2 (length metas) then err out_of_fuel else ok c.plans
  plan_loop (suc fuel) metas c = elim (get_elem? metas c.p2) [
    | none ↦ ok c.plans
    | some m2 ↦ plan_round metas m2 c >>= λ c'. plan_loop fuel metas c'
  ]

-- After the sort: nothing is planned for fewer than two servers.
unfoldable pub plan_sorted : Bytes → ℤ → List SubMeta → Result (List Plan)
plan_sorted event new_avg [] = ok []
plan_sorted event new_avg (m ∷ []) = ok []
plan_sorted event new_avg (m ∷ m' ∷ metas) =
    let all = m ∷ m' ∷ metas in
    plan_loop event new_avg (suc (length all + length all)) all
      (record { p1 = 0; p2 = 1; plans = [] })

-- `sort` is `std::sort` by `SortByMeta`, which does not say how equal servers are ordered.
-- `eventRecordMap[imbEvent]` enters an unknown event, with no server.
module _ {ℓ} (W : Type ℓ) ⦃d : Double W⦄ (sort : List SubMeta → List SubMeta) where
  unfoldable pub generate_plan_for_event : Bytes → StatusMap → Result (List Plan × StatusMap)
  generate_plan_for_event event m =
      plan_sorted event (d.ceil (get_average {W = W} event m))
        (sort (sub_metas (find_or [] event m)))
      >>= λ plans. ok (plans, touch [] event m)

-- `fakeRedistributeByPlan`
unfoldable pub fake_redistribute_by_plan : List Plan → StatusMap → StatusMap
fake_redistribute_by_plan [] m = m
fake_redistribute_by_plan (plan ∷ plans) m = fake_redistribute_by_plan plans (
    redistribute_status_map plan.move_subscription plan.dest_addr plan.move_number
      (redistribute_status_map plan.move_subscription plan.src_addr (pos 0 -ℤ plan.move_number) m))
