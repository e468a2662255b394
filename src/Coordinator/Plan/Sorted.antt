-- ===== src/Coordinator/Plan/Sorted.antt =====
-- `generatePlanForEvent` of src/utils/coordinator/coordinator.cpp with a `std::sort` that sorts.
use mathlib.Core.List.{Perm}
use mathlib.Core.List.Perm
use tpst.Prelude.{
  ◌≡◌, ◌⊎◌, inl, inr, refl, sym, ap, ◌∙◌, List, [], ◌∷◌, ℤ, ◌≤ℤ◌, Bytes, Bool, true, false, Result,
  Error, ok, err, ◌>>=◌, bad_index, All, if◌then◌else◌,
}
use tpst.StdMap.{bytes_key, Map, find_or, touch}
use tpst.Coordinator.Double.{Double}
use tpst.Coordinator.Status.{StatusMap, get_average}
use tpst.Coordinator.Plan.{SubMeta, Plan, sub_metas, plan_sorted, generate_plan_for_event}
use tpst.Coordinator.Plan.Spec.{all_served, fill_plans, plan_sorted-fills}

-- No server of the list has more than `top`.
abbrev pub AtMost : SubMeta → List SubMeta → Type 0
AtMost top = All (λ m. m.sub_number ≤ℤ top.sub_number)

-- The order of `SortByMeta`.
abbrev pub Descending : List SubMeta → Type 0
Descending [] = Unit
Descending (m ∷ metas) = AtMost m metas × Descending metas

-- What `std::sort` by `SortByMeta` promises: the same servers, in that order.
pub record Sorts (sort : List SubMeta → List SubMeta) : Type 0 where
  pub same : (metas : List SubMeta) → Perm (sort metas) metas
  pub descending : (metas : List SubMeta) → Descending (sort metas)

-- What the planning loop returns for a fullest server and the others.
abbrev pub filled : Bytes → ℤ → SubMeta → List SubMeta → Result (List Plan)
filled event new_avg top rest =
    if all_served event new_avg top rest
    then ok (fill_plans event new_avg top rest)
    else err bad_index

if-bind {ℓ} :
    {T U : Type ℓ} (b : Bool) (t : T) (e : Error) (f : T → U)
    → ((if b then ok t else err e) >>= λ r. ok (f r)) ≡ (if b then ok (f t) else err e)
if-bind true t e f = refl
if-bind false t e f = refl

sub_metas-nil : (loads : Map Bytes ℤ) → sub_metas loads ≡ [] → loads ≡ []
unfolding sub_metas
sub_metas-nil [] h = refl
sub_metas-nil ((addr, n) ∷ loads) h = cc

plan_sorted-filled :
    (event : Bytes) (new_avg : ℤ) (top : SubMeta) (rest : List SubMeta)
    → AtMost top rest
    → plan_sorted event new_avg (top ∷ rest) ≡ filled event new_avg top rest
unfolding plan_sorted
plan_sorted-filled event new_avg top [] most = refl
plan_sorted-filled event new_avg top (m ∷ metas) most =
    plan_sorted-fills event new_avg top m metas most

module _ {ℓ} (W : Type ℓ) ⦃d : Double W⦄ (sort : List SubMeta → List SubMeta) (sorts : Sorts sort)
    (event : Bytes) (m : StatusMap) where
  abbrev servers : List SubMeta
  servers = sub_metas (find_or [] event m)

  abbrev new_avg : ℤ
  new_avg = d.ceil (get_average {W = W} event m)

  abbrev Planned : List SubMeta → Type 0
  Planned metas =
      ((metas ≡ []) × (plan_sorted event new_avg metas ≡ ok []))
      ⊎ ((top : SubMeta) × (rest : List SubMeta) × (metas ≡ top ∷ rest)
          × AtMost top rest
          × (plan_sorted event new_avg metas ≡ filled event new_avg top rest))

  planned : (metas : List SubMeta) → Descending metas → Planned metas
  unfolding plan_sorted
  planned [] order = inl (refl, refl)
  planned (top ∷ rest) order =
      inr (top, rest, refl, order.0, plan_sorted-filled event new_avg top rest order.0)

  -- With a sort that sorts, the plans for an event that no server has subscriptions to are none. If
  -- some have, the servers are one that has most and the others: if each other server below the
  -- average, rounded up, lacks no more than what that one has above it, there is one plan for each
  -- such server, from the fullest one and of what the server lacks, and the event is entered; if
  -- not, the call reads past the end of its list.
  pub generate_plan_for_event-filled :
      ((find_or [] event m ≡ [])
        × (generate_plan_for_event W sort event m ≡ ok ([], touch [] event m)))
      ⊎ ((top : SubMeta) × (rest : List SubMeta) × Perm (top ∷ rest) servers
          × AtMost top rest
          × (generate_plan_for_event W sort event m ≡ (
              if all_served event new_avg top rest
              then ok (fill_plans event new_avg top rest, touch [] event m)
              else err bad_index)))
  unfolding generate_plan_for_event
  generate_plan_for_event-filled = elim (planned (sort servers) (sorts.descending servers)) [
    | inl (empty, done) ↦ inl (
      sub_metas-nil (find_or [] event m) (sym (Perm.nil-eq (rw (sym empty) (sorts.same servers)))),
      rw done refl,
    )
    | inr (top, rest, shape, most, done) ↦ inr (
      top,
      rest,
      rw (sym shape) (sorts.same servers),
      most,
      ap (λ r. r >>= λ plans. ok (plans, touch [] event m)) done ∙ if-bind _ _ _ _,
    )
  ]
