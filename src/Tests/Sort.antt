-- ===== src/Tests/Sort.antt =====
-- `generatePlanForEvent` of src/utils/coordinator/coordinator.cpp with an insertion sort.
use mathlib.Core.List.{Perm}
use mathlib.Core.List.Perm
use tpst.Prelude.{
  ◌≡◌, ◌⊎◌, inl, inr, List, [], ◌∷◌, ℤ, pos, ◌≤ℤ◌, leb_ℤ, codes, ok, err, bad_index, if◌then◌else◌,
  Bool-cases, arith,
}
use tpst.StdMap.{bytes_key, find_or, touch}
use tpst.Coordinator.Status.{StatusMap, get_average}
use tpst.Coordinator.Plan.{SubMeta, sub_metas, generate_plan_for_event}
use tpst.Coordinator.Plan.Spec.{all_served, fill_plans}
use tpst.Coordinator.Plan.Sorted.{AtMost, Descending, Sorts, generate_plan_for_event-filled}
use tpst.Tests.Overload.{rounded}

place : SubMeta → List SubMeta → List SubMeta
place m [] = m ∷ []
place m (x ∷ xs) =
    let rest = place m xs in if leb_ℤ x.sub_number m.sub_number then m ∷ x ∷ xs else x ∷ rest

insertion_sort : List SubMeta → List SubMeta
unfolding place
insertion_sort [] = []
insertion_sort (m ∷ ms) = place m (insertion_sort ms)

place-Perm : (m : SubMeta) (xs : List SubMeta) → Perm (place m xs) (m ∷ xs)
unfolding place
place-Perm m [] = Perm.refl (m ∷ [])
place-Perm m (x ∷ xs) = elim (Bool-cases (leb_ℤ x.sub_number m.sub_number)) [
  | inl e ↦ rw (e, place) (Perm.refl (m ∷ x ∷ xs))
  | inr e ↦ rw (e, place) (Perm.trans (Perm.cons x (place-Perm m xs)) (Perm.swap m x xs))
]

sort-Perm : (xs : List SubMeta) → Perm (insertion_sort xs) xs
unfolding insertion_sort
sort-Perm [] = Perm.nil
sort-Perm (m ∷ ms) = Perm.trans (place-Perm m (insertion_sort ms)) (Perm.cons m (sort-Perm ms))

AtMost-trans :
    (m x : SubMeta) (xs : List SubMeta) → x.sub_number ≤ℤ m.sub_number → AtMost x xs → AtMost m xs
AtMost-trans m x [] le h = tt
AtMost-trans m x (y ∷ xs) le h = (ground (arith, le, h.0), AtMost-trans m x xs le h.1)

place-AtMost :
    (top m : SubMeta) (xs : List SubMeta)
    → m.sub_number ≤ℤ top.sub_number
    → AtMost top xs
    → AtMost top (place m xs)
unfolding place
place-AtMost top m [] le h = (le, tt)
place-AtMost top m (x ∷ xs) le h = elim (Bool-cases (leb_ℤ x.sub_number m.sub_number)) [
  | inl e ↦ rw (e, place) (le, h)
  | inr e ↦ rw (e, place) (h.0, place-AtMost top m xs le h.1)
]

place-Descending : (m : SubMeta) (xs : List SubMeta) → Descending xs → Descending (place m xs)
unfolding place
place-Descending m [] h = (tt, tt)
place-Descending m (x ∷ xs) h = elim (Bool-cases (leb_ℤ x.sub_number m.sub_number)) [
  | inl e ↦
      let le : x.sub_number ≤ℤ m.sub_number = ground (arith, e) in
      rw (e, place) ((le, AtMost-trans m x xs le h.0), h)
  | inr e ↦ rw (e, place) (place-AtMost x m xs (ground (arith, e)) h.0, place-Descending m xs h.1)
]

sort-Descending : (xs : List SubMeta) → Descending (insertion_sort xs)
unfolding insertion_sort
sort-Descending [] = tt
sort-Descending (m ∷ ms) = place-Descending m (insertion_sort ms) (sort-Descending ms)

sort-Sorts : Sorts insertion_sort
sort-Sorts = record { same = sort-Perm; descending = sort-Descending }

-- Loads 2, 10 and 0.
abbrev loads : StatusMap
loads = (codes "T1", (codes "a", pos 2) ∷ (codes "b", pos 10) ∷ (codes "c", pos 0) ∷ []) ∷ []

generate_plan_for_event-filled_example :
    ((find_or [] (codes "T1") loads ≡ [])
      × (generate_plan_for_event ℤ insertion_sort (codes "T1") loads
          ≡ ok ([], touch [] (codes "T1") loads)))
    ⊎ ((top : SubMeta) × (rest : List SubMeta) × Perm
          (top ∷ rest)
          (sub_metas (find_or [] (codes "T1") loads))
        × AtMost top rest
        × (generate_plan_for_event ℤ insertion_sort (codes "T1") loads ≡ (
            if all_served
              (codes "T1")
              (rounded.ceil (get_average {W = ℤ} (codes "T1") loads))
              top
              rest
            then ok (
              fill_plans
                  (codes "T1")
                  (rounded.ceil (get_average {W = ℤ} (codes "T1") loads))
                  top
                  rest,
              touch [] (codes "T1") loads,
            )
            else err bad_index)))
generate_plan_for_event-filled_example =
    generate_plan_for_event-filled ℤ insertion_sort sort-Sorts (codes "T1") loads
