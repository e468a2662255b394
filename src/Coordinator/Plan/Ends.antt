-- ===== src/Coordinator/Plan/Ends.antt =====
-- The planning loop of src/utils/coordinator/coordinator.cpp: each round moves one of the two cursors.
use mathlib.Core.Path.{subst}
use tpst.Prelude.{
  ℕ, zero, suc, ◌+◌, ◌≤◌, ◌<◌, ◌≡◌, ◌≢◌, List, [], ◌∷◌, none, some, ℤ, leb_ℤ, ◌-ℤ◌, Bytes, err, ok,
  ok-injective, >>=-returns, >>=-returns_on, out_of_fuel, length, get_elem?, Bool-cases,
  Option-cases, inl, inr, arith,
}
use tpst.StdMap.{bytes_key}
use tpst.Coordinator.Double.{Double}
use tpst.Coordinator.Status.{StatusMap}
use tpst.Coordinator.Plan.{
  SubMeta, Cursor, plan_pair, plan_round, plan_loop, plan_sorted, generate_plan_for_event,
}

get_elem?-some {ℓ} :
    {A : Type ℓ} (i : ℕ) (xs : List A) {x : A} → get_elem? xs i ≡ some x → i < length xs
get_elem?-some zero [] h = cc
get_elem?-some (suc i) [] h = cc
get_elem?-some zero (x ∷ xs) h = omega arith
get_elem?-some (suc i) (x ∷ xs) h = omega (arith, get_elem?-some i xs h)

get_elem?-none {ℓ} : {A : Type ℓ} (i : ℕ) (xs : List A) → get_elem? xs i ≡ none → length xs ≤ i
get_elem?-none i [] h = omega arith
get_elem?-none zero (x ∷ xs) h = cc
get_elem?-none (suc i) (x ∷ xs) h = omega (arith, get_elem?-none i xs h)

module _ (event : Bytes) (new_avg : ℤ) where
  plan_pair-moves :
      (m1 m2 : SubMeta) (c : Cursor) (n : ℕ)
      → c.p1 < n
      → ((plan_pair event new_avg m1 m2 c).p1 ≤ n)
        × ((plan_pair event new_avg m1 m2 c).p1 + (plan_pair event new_avg m1 m2 c).p2
            ≡ suc (c.p1 + c.p2))
  unfolding plan_pair
  plan_pair-moves m1 m2 c n h =
      elim (Bool-cases (leb_ℤ (new_avg -ℤ m2.sub_number) (m1.sub_number -ℤ new_avg))) [
        | inl enough ↦ rw enough (omega (arith, h), omega arith)
        | inr short ↦ rw short (omega (arith, h), omega arith)
      ]

  plan_round-moves :
      (metas : List SubMeta) (m2 : SubMeta) (c c' : Cursor)
      → plan_round event new_avg metas m2 c ≡ ok c'
      → c.p1 ≤ length metas
      → (c'.p1 ≤ length metas) × (c'.p1 + c'.p2 ≡ suc (c.p1 + c.p2))
  unfolding plan_round
  plan_round-moves metas m2 c c' h in_list = elim (Bool-cases (leb_ℤ new_avg m2.sub_number)) [
    | inl full ↦
        let next : ok (record c { p2 = suc c.p2 }) ≡ ok c' = ground (arith, h, full) in
        subst (λ e. (e.p1 ≤ length metas) × (e.p1 + e.p2 ≡ suc (c.p1 + c.p2))) (ok-injective next)
          (in_list, omega arith)
    | inr low ↦ elim (Option-cases (get_elem? metas c.p1)) [
      | inl past ↦ ground (arith, h, low, past)
      | inr (m1, there) ↦
          let next : ok (plan_pair event new_avg m1 m2 c) ≡ ok c' = ground (arith, h, low, there) in
          subst (λ e. (e.p1 ≤ length metas) × (e.p1 + e.p2 ≡ suc (c.p1 + c.p2))) (ok-injective next)
            (plan_pair-moves m1 m2 c (length metas) (get_elem?-some c.p1 metas there))
    ]
  ]

  plan_round-returns :
      (metas : List SubMeta) (m2 : SubMeta) (c : Cursor)
      → plan_round event new_avg metas m2 c ≢ err out_of_fuel
  unfolding plan_round
  plan_round-returns metas m2 c h = ground (arith, h)

  plan_loop-returns :
      (fuel : ℕ) (metas : List SubMeta) (c : Cursor)
      → c.p1 ≤ length metas
      → length metas + length metas ≤ fuel + c.p1 + c.p2
      → plan_loop event new_avg fuel metas c ≢ err out_of_fuel
  unfolding plan_loop
  plan_loop-returns zero metas c in_list enough h = ground (arith, in_list, enough, h)
  plan_loop-returns (suc fuel) metas c in_list enough h =
      elim (Option-cases (get_elem? metas c.p2)) [
        | inl past ↦ ground (arith, h, past)
        | inr (m2, here) ↦
            >>=-returns_on (plan_round event new_avg metas m2 c)
              (plan_loop event new_avg fuel metas) (plan_round-returns metas m2 c)
              (λ c' is.
                let (in_list', moved) = plan_round-moves metas m2 c c' is in_list in
                plan_loop-returns fuel metas c' in_list' (omega (arith, moved, enough)))
              (ground (arith, h, here))
      ]

pub plan_sorted-returns :
    (event : Bytes) (new_avg : ℤ) (metas : List SubMeta)
    → plan_sorted event new_avg metas ≢ err out_of_fuel
unfolding plan_sorted
plan_sorted-returns event new_avg [] h = cc
plan_sorted-returns event new_avg (m ∷ []) h = cc
plan_sorted-returns event new_avg (m ∷ m' ∷ metas) h =
    plan_loop-returns event new_avg (suc (length (m ∷ m' ∷ metas) + length (m ∷ m' ∷ metas)))
      (m ∷ m' ∷ metas) _ (omega arith) (omega arith) h

module _ {ℓ} (W : Type ℓ) ⦃d : Double W⦄ (sort : List SubMeta → List SubMeta) where
  pub generate_plan_for_event-returns :
      (event : Bytes) (m : StatusMap) → generate_plan_for_event W sort event m ≢ err out_of_fuel
  unfolding generate_plan_for_event
  generate_plan_for_event-returns event m =
      >>=-returns _ _ (plan_sorted-returns event _ _) (λ plans h. cc)
