-- ===== src/Coordinator/Plan/Spec.antt =====
-- What the planning loop of src/utils/coordinator/coordinator.cpp computes.
use tpst.Prelude.{
  ℕ, zero, suc, ◌+◌, ◌<◌, ◌≡◌, refl, sym, Bool, true, false, List, [], ◌∷◌, ◌++◌, none, some, ℤ,
  ◌-ℤ◌, ◌≤ℤ◌, leb_ℤ, -ℤ_parts, Bytes, ok, err, bad_index, length, length-append, get_elem?, arith,
  All, if◌then◌else◌, Bool-cases, inl, inr, ◌∙◌, ap,
}
use mathlib.Core.List.{append_assoc, append-nil}
use tpst.Coordinator.Plan.{
  SubMeta, Plan, Cursor, generate_plan, plan_pair, plan_round, plan_loop, plan_sorted,
}

get_elem?-append {ℓ} :
    {A : Type ℓ} (xs : List A) (y : A) (ys : List A) → get_elem? (xs ++ y ∷ ys) (length xs) ≡ some y
get_elem?-append [] y ys = refl
get_elem?-append (x ∷ xs) y ys = get_elem?-append xs y ys

get_elem?-length {ℓ} : {A : Type ℓ} (xs : List A) → get_elem? xs (length xs) ≡ none
get_elem?-length [] = refl
get_elem?-length (x ∷ xs) = get_elem?-length xs

length-append-one {ℓ} : {A : Type ℓ} (xs : List A) (y : A) → length (xs ++ y ∷ []) ≡ suc (length xs)
length-append-one xs y = omega (arith, length-append xs (y ∷ []))

module _ (event : Bytes) (new_avg : ℤ) (top : SubMeta) where
  -- Can `top` alone give `m` what it lacks, if it lacks something?
  abbrev pub served : SubMeta → Bool
  served m =
      if leb_ℤ new_avg m.sub_number
      then true
      else leb_ℤ (new_avg -ℤ m.sub_number) (top.sub_number -ℤ new_avg)

  abbrev pub all_served : List SubMeta → Bool
  all_served [] = true
  all_served (m ∷ metas) = if served m then all_served metas else false

  -- One plan, from `top`, for each server below the average: it fills it up to the average.
  abbrev pub fill_plans : List SubMeta → List Plan
  fill_plans [] = []
  fill_plans (m ∷ metas) =
      let rest = fill_plans metas in
      if leb_ℤ new_avg m.sub_number
      then rest
      else generate_plan event top.server_addr m.server_addr (new_avg -ℤ m.sub_number) ∷ rest

  -- No server has more than `top`.
  abbrev pub Below : List SubMeta → Type 0
  Below = All (λ m. m.sub_number ≤ℤ top.sub_number)

  module _ (m2 : SubMeta) (lacks : leb_ℤ new_avg m2.sub_number ≡ false)
      (short : leb_ℤ (new_avg -ℤ m2.sub_number) (top.sub_number -ℤ new_avg) ≡ false) where
    -- A server that `top` cannot serve, no other can serve.
    never_served :
        (m : SubMeta)
        → m.sub_number ≤ℤ top.sub_number
        → leb_ℤ (new_avg -ℤ m2.sub_number) (m.sub_number -ℤ new_avg) ≡ false
    never_served m le = ground (
      arith,
      -ℤ_parts new_avg m2.sub_number,
      -ℤ_parts m.sub_number new_avg,
      -ℤ_parts top.sub_number new_avg,
    )

    plan_round-short :
        (metas : List SubMeta) (m : SubMeta) (c : Cursor)
        → get_elem? metas c.p1 ≡ some m
        → m.sub_number ≤ℤ top.sub_number
        → plan_round event new_avg metas m2 c
          ≡ ok (record c {
            p1 = suc c.p1;
            plans =
                c.plans
                ++ generate_plan event m.server_addr m2.server_addr (m.sub_number -ℤ new_avg) ∷ [];
          })
    unfolding plan_round plan_pair
    plan_round-short metas m c source le = rw (lacks, source) (rw (never_served m le) refl)

    -- The loop stays at such a server, tries every source, and leaves the list.
    stuck :
        (fuel : ℕ) (before rest all : List SubMeta) (c : Cursor)
        → all ≡ before ++ rest
        → c.p1 ≡ length before
        → get_elem? all c.p2 ≡ some m2
        → Below rest
        → length rest < fuel
        → plan_loop event new_avg fuel all c ≡ err bad_index
    unfolding plan_loop plan_round
    stuck zero before rest all c split at_p1 at_p2 below enough = absurd (omega arith)
    stuck (suc fuel) before [] all c split at_p1 at_p2 below enough =
        rw (at_p2, plan_loop, lacks, missing)
      where
        missing : get_elem? all c.p1 ≡ none
        missing = rw (at_p1, split, append-nil) (get_elem?-length before)
    stuck (suc fuel) before (m ∷ rest) all c split at_p1 at_p2 below enough =
        let later =
          stuck fuel (before ++ m ∷ []) rest all
            (record c {
              p1 = suc c.p1;
              plans =
                  c.plans
                  ++ generate_plan event m.server_addr m2.server_addr (m.sub_number -ℤ new_avg)
                    ∷ [];
            })
            (split ∙ sym (append_assoc before (m ∷ []) rest))
            (ap suc at_p1 ∙ sym (length-append-one before m)) at_p2 below.1 (omega arith) in
        rw (at_p2, plan_loop) (rw (plan_round-short all m c source below.0) later)
      where
        source : get_elem? all c.p1 ≡ some m
        source = rw (at_p1, split) (get_elem?-append before m rest)

  at_m :
      (before : List SubMeta) (m : SubMeta) (rest all : List SubMeta)
      → all ≡ before ++ m ∷ rest
      → get_elem? all (length before) ≡ some m
  at_m before m rest all split = rw split (get_elem?-append before m rest)

  walk_step :
      (fuel : ℕ) (before : List SubMeta) (m : SubMeta) (rest all : List SubMeta) (ps : List Plan)
      → all ≡ before ++ m ∷ rest
      → get_elem? all 0 ≡ some top
      → Below all
      → length all < fuel
      → ((ps' : List Plan)
          → plan_loop event new_avg fuel all
              (record { p1 = 0; p2 = suc (length before); plans = ps' })
            ≡ (if all_served rest then ok (ps' ++ fill_plans rest) else err bad_index))
      → plan_loop event new_avg (suc fuel) all (record { p1 = 0; p2 = length before; plans = ps })
        ≡ (if all_served (m ∷ rest) then ok (ps ++ fill_plans (m ∷ rest)) else err bad_index)
  unfolding plan_loop plan_round plan_pair
  walk_step fuel before m rest all ps split first below enough later =
      elim (Bool-cases (leb_ℤ new_avg m.sub_number)) [
        | inl e ↦ rw (at_m before m rest all split, plan_loop) (simp (e, later))
        | inr e ↦ elim (Bool-cases (leb_ℤ (new_avg -ℤ m.sub_number) (top.sub_number -ℤ new_avg))) [
          | inl e2 ↦
              rw (at_m before m rest all split, plan_loop)
                (simp (e, e2, first, later, append_assoc))
          | inr e2 ↦
              simp (e, e2)
                (stuck m e e2 (suc fuel) [] all all
                  (record { p1 = 0; p2 = length before; plans = ps }) refl refl
                  (at_m before m rest all split) below (omega arith))
        ]
      ]

  -- With the fullest server first, the loop serves the servers in their order.
  walk :
      (fuel : ℕ) (before rest all : List SubMeta) (ps : List Plan)
      → all ≡ before ++ rest
      → get_elem? all 0 ≡ some top
      → Below all
      → length all + length rest < fuel
      → plan_loop event new_avg fuel all (record { p1 = 0; p2 = length before; plans = ps })
        ≡ (if all_served rest then ok (ps ++ fill_plans rest) else err bad_index)
  unfolding plan_loop
  walk zero before rest all ps split first below enough = absurd (omega arith)
  walk (suc fuel) before [] all ps split first below enough = rw (end, plan_loop, append-nil)
    where
      end : get_elem? all (length before) ≡ none
      end = rw (split, append-nil) (get_elem?-length before)
  walk (suc fuel) before (m ∷ rest) all ps split first below enough =
      walk_step fuel before m rest all ps split first below (omega arith) (λ ps'.
        rw (sym (length-append-one before m)) (
          walk fuel (before ++ m ∷ []) rest all ps'
            (split ∙ sym (append_assoc before (m ∷ []) rest)) first below (omega arith)))

-- For a list of two servers or more that begins with a fullest one, the planning loop always ends.
-- If each other server below the average lacks no more than what the first one has above it, the
-- plans are one for each such server, in order: from the first one, of what that server lacks. If
-- not, the loop reads past the end of the list: whatever the first server has left, no plan ever
-- takes from the second.
pub plan_sorted-fills :
    (event : Bytes) (new_avg : ℤ) (top m : SubMeta) (metas : List SubMeta)
    → Below event new_avg top (m ∷ metas)
    → plan_sorted event new_avg (top ∷ m ∷ metas) ≡ (
        if all_served event new_avg top (m ∷ metas)
        then ok (fill_plans event new_avg top (m ∷ metas))
        else err bad_index)
unfolding plan_sorted
plan_sorted-fills event new_avg top m metas below =
    walk event new_avg top (suc (length (top ∷ m ∷ metas) + length (top ∷ m ∷ metas))) (top ∷ [])
      (m ∷ metas) (top ∷ m ∷ metas) [] refl refl (omega arith, below) (omega arith)
