-- ===== src/Coordinator/Status/Total.antt =====
-- The number of subscriptions to an event over all servers, in src/utils/coordinator/coordinator.cpp.
use tpst.Prelude.{
  ◌≡◌, refl, List, [], ◌∷◌, ℤ, pos, ◌+ℤ◌, ◌-ℤ◌, +ℤ_parts, int_laws, Bytes, bytes_eq, bytes_eq_iff,
  arith, if◌then◌else◌, ◌∙◌, ap, pos_part, neg_part,
}
use tpst.StdMap.{bytes_key, Map, find, find_or, put, keys}
use tpst.StdMap.Laws.{find_or-put, find_or-none}
use tpst.StdMap.Sorted.{IsSorted, Above, Above-trans, find-Above, put-IsSorted}
use tpst.Coordinator.Status.{StatusMap, assign, recorded, redistribute_status_map}
use tpst.Coordinator.Plan.{Plan, fake_redistribute_by_plan}

pub sum_of : Map Bytes ℤ → ℤ
sum_of [] = pos 0
sum_of ((a, n) ∷ servers) = n +ℤ sum_of servers

-- The servers of each event, and the events, are in the order of a `std::map`.
abbrev pub Servers : Bytes → StatusMap → Map Bytes ℤ
Servers event m = find_or [] event m

absent : (a : Bytes) (m : Map Bytes ℤ) → Above a (keys m) → find_or (pos 0) a m ≡ pos 0
absent a m above = find_or-none (pos 0) a m (find-Above a m above)

module _ (n v s : ℤ) where
  swap : n +ℤ s +ℤ v ≡ v +ℤ s +ℤ n
  swap = omega int_laws

  zero_right : n +ℤ (v +ℤ s) +ℤ pos 0 ≡ v +ℤ s +ℤ n
  zero_right = omega int_laws

  under : (p f : ℤ) → p +ℤ f ≡ s +ℤ n → v +ℤ p +ℤ f ≡ v +ℤ s +ℤ n
  under p f h = omega (int_laws, ap pos_part h, ap neg_part h, +ℤ_parts p f, +ℤ_parts s n)

-- Only the entry below `a` changes in the sum.
pub sum_of-put :
    (a : Bytes) (n : ℤ) (m : Map Bytes ℤ)
    → IsSorted (keys m)
    → sum_of (put a n m) +ℤ find_or (pos 0) a m ≡ sum_of m +ℤ n
unfolding sum_of put find_or find
sum_of-put a n [] h = omega int_laws
sum_of-put a n ((b, v) ∷ m) h =
    let later =
      under n v (sum_of m) (sum_of (put a n m)) (find_or (pos 0) a m) (sum_of-put a n m h.1) in
    ground (
      arith,
      later,
      swap n v (sum_of m),
      zero_right n v (sum_of m),
      absent a m,
      Above-trans a b (keys m),
      bytes_eq_iff b a,
    )

-- The subscriptions to `event` over all servers.
abbrev pub total : Bytes → StatusMap → ℤ
total event m = sum_of (find_or [] event m)

-- The servers of `event` are listed in order, as in any `std::map`.
abbrev pub InOrder : Bytes → StatusMap → Type 0
InOrder event m = IsSorted (keys (find_or [] event m))

redistribute-servers :
    (e' e a : Bytes) (n : ℤ) (m : StatusMap)
    → find_or [] e' (redistribute_status_map e a n m)
      ≡ (if bytes_eq e e' then put a (recorded e a m +ℤ n) (find_or [] e m) else find_or [] e' m)
unfolding redistribute_status_map assign
redistribute-servers e' e a n m =
    find_or-put [] e' e (put a (recorded e a m +ℤ n) (find_or [] e m)) m

pub redistribute-InOrder :
    (e' e a : Bytes) (n : ℤ) (m : StatusMap)
    → InOrder e' m
    → InOrder e' (redistribute_status_map e a n m)
redistribute-InOrder e' e a n m h = ground (
  arith,
  redistribute-servers e' e a n m,
  put-IsSorted a (recorded e a m +ℤ n) (find_or [] e m),
  bytes_eq_iff e e',
)

cancel : (q f t n : ℤ) → q +ℤ f ≡ t +ℤ (f +ℤ n) → q ≡ t +ℤ n
cancel q f t n h = omega (
  int_laws,
  ap pos_part h,
  ap neg_part h,
  +ℤ_parts q f,
  +ℤ_parts t (f +ℤ n),
  +ℤ_parts f n,
  +ℤ_parts t n,
)

redistribute-total :
    (e' e a : Bytes) (n : ℤ) (m : StatusMap)
    → InOrder e m
    → total e' (redistribute_status_map e a n m)
      ≡ (if bytes_eq e e' then total e' m +ℤ n else total e' m)
unfolding recorded
redistribute-total e' e a n m h = ground (
  arith,
  redistribute-servers e' e a n m,
  cancel (sum_of (put a (recorded e a m +ℤ n) (find_or [] e m))) (recorded e a m)
      (sum_of (find_or [] e m)) n,
  sum_of-put a (recorded e a m +ℤ n) (find_or [] e m) h,
  bytes_eq_iff e e',
)

back : (t n : ℤ) → t +ℤ (pos 0 -ℤ n) +ℤ n ≡ t
back t n = omega int_laws

plan-total :
    (e' e src dest : Bytes) (n : ℤ) (m : StatusMap)
    → InOrder e m
    → total e' (redistribute_status_map e dest n (redistribute_status_map e src (pos 0 -ℤ n) m))
      ≡ total e' m
plan-total e' e src dest n m h = ground (
  arith,
  redistribute-total e' e dest n (redistribute_status_map e src (pos 0 -ℤ n) m)
      (redistribute-InOrder e e src (pos 0 -ℤ n) m h),
  redistribute-total e' e src (pos 0 -ℤ n) m h,
  back (total e' m) n,
)

-- `fakeRedistributeByPlan` moves subscriptions between servers and makes and drops none: whatever
-- the plans are, the subscriptions to an event over all servers add up to what they did.
pub fake_redistribute-total :
    (plans : List Plan) (m : StatusMap)
    → ((event : Bytes) → InOrder event m)
    → (event : Bytes) → total event (fake_redistribute_by_plan plans m) ≡ total event m
unfolding fake_redistribute_by_plan
fake_redistribute-total [] m h event = refl
fake_redistribute-total (plan ∷ plans) m h event =
    fake_redistribute-total plans
      (redistribute_status_map plan.move_subscription plan.dest_addr plan.move_number (
        redistribute_status_map plan.move_subscription plan.src_addr (pos 0 -ℤ plan.move_number) m))
      (λ e.
        redistribute-InOrder e plan.move_subscription plan.dest_addr plan.move_number
          (redistribute_status_map plan.move_subscription plan.src_addr (pos 0 -ℤ plan.move_number)
            m)
          (redistribute-InOrder e plan.move_subscription plan.src_addr (pos 0 -ℤ plan.move_number) m
            (h e)))
      event
    ∙ plan-total event plan.move_subscription plan.src_addr plan.dest_addr plan.move_number m
        (h plan.move_subscription)
