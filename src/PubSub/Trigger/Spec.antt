-- ===== src/PubSub/Trigger/Spec.antt =====
-- When `checkIfTriggure` of src/server/pubsub.cc answers yes.
use tpst.Prelude.{
  ◌≡◌, ◌≢◌, ◌↔◌, refl, true, false, List, [], ◌∷◌, Option, none, some, ℤ, eqb_ℤ_iff, Bytes, arith,
  bytes_eq_iff,
}
use tpst.StdMap.{bytes_key, int_key, Map, find, find_or, contains, keys}
use tpst.StdMap.Sorted.{IsSorted, find-Above}
use tpst.PubSub.State.{PubsubWrapper}
use tpst.PubSub.Trigger.{check_numbers, check_events, check_if_triggure}

-- The wrapper requires `event` to be published `n` times.
abbrev pub Requires : Map Bytes (List ℤ) → Bytes → ℤ → Type 0
Requires required event n = contains n (find_or [] event required) ≡ true

check_numbers-some :
    (times : Option ℤ) (numbers : List ℤ) (n : ℤ)
    → check_numbers times numbers ≡ true
    → contains n numbers ≡ true
    → times ≡ some n
unfolding check_numbers contains
check_numbers-some times [] n h k = cc
check_numbers-some none (m ∷ numbers) n h k = cc
check_numbers-some (some t) (m ∷ numbers) n h k =
    ground (arith, check_numbers-some (some t) numbers n, eqb_ℤ_iff t m, eqb_ℤ_iff m n)

check_numbers_all :
    (times : Option ℤ) (numbers : List ℤ)
    → ((n : ℤ) → contains n numbers ≡ true → times ≡ some n)
    → check_numbers times numbers ≡ true
unfolding check_numbers contains
check_numbers_all times [] h = refl
check_numbers_all times (m ∷ numbers) h =
    let here : times ≡ some m = h m (ground (arith, eqb_ℤ_iff m m)) in
    let rest : check_numbers times numbers ≡ true =
      check_numbers_all times numbers (λ n k. h n (ground (arith, k))) in
    ground (arith, here, rest, eqb_ℤ_iff m m)

check_events_sound :
    (published : Map Bytes ℤ) (required : Map Bytes (List ℤ)) (event : Bytes) (n : ℤ)
    → check_events published required ≡ true
    → Requires required event n
    → find event published ≡ some n
unfolding check_events find_or find contains
check_events_sound published [] event n h r = cc
check_events_sound published ((e, numbers) ∷ required) event n h r = ground (
  arith,
  check_events_sound published required event n,
  check_numbers-some (find e published) numbers n,
  bytes_eq_iff e event,
)

check_events_complete :
    (published : Map Bytes ℤ) (required : Map Bytes (List ℤ))
    → IsSorted (keys required)
    → ((event : Bytes) (n : ℤ) → Requires required event n → find event published ≡ some n)
    → check_events published required ≡ true
unfolding check_events find_or find contains
check_events_complete published [] sorted all = refl
check_events_complete published ((e, numbers) ∷ required) sorted all =
    let here : check_numbers (find e published) numbers ≡ true =
      check_numbers_all (find e published) numbers
        (λ n k. all e n (ground (arith, k, bytes_eq_iff e e))) in
    let rest : check_events published required ≡ true =
      check_events_complete published required sorted.1 (λ event n r.
        all event n (ground (arith, r, find-Above e required sorted.0, bytes_eq_iff e event))) in
    ground (arith, here, rest)

-- `checkIfTriggure` says yes exactly when each event has been published each number of times that
-- the wrapper requires of it.
pub check_if_triggure_iff :
    (psw : PubsubWrapper)
    → IsSorted (keys psw.required_event_map)
    → (check_if_triggure psw ≡ true) ↔ (
        (event : Bytes) (n : ℤ)
        → Requires psw.required_event_map event n
        → find event psw.published_event ≡ some n)
unfolding check_if_triggure
check_if_triggure_iff psw sorted = (
  λ h event n r. check_events_sound psw.published_event psw.required_event_map event n h r,
  check_events_complete psw.published_event psw.required_event_map sorted,
)

-- A client that requires one event in two different numbers is never notified.
pub two_numbers_never :
    (psw : PubsubWrapper) (event : Bytes) (n m : ℤ)
    → Requires psw.required_event_map event n
    → Requires psw.required_event_map event m
    → n ≢ m
    → check_if_triggure psw ≡ false
unfolding check_if_triggure
two_numbers_never psw event n m rn rm ne = ground (
  arith,
  check_events_sound psw.published_event psw.required_event_map event n,
  check_events_sound psw.published_event psw.required_event_map event m,
)
