-- ===== src/PubSub/Trigger.antt =====
-- `checkIfTriggure` of src/server/pubsub.cc: has every required event been published the required
-- number of times?
pub mod Spec
use tpst.Prelude.{
  Bool, true, false, List, [], ◌∷◌, Option, none, some, ℤ, eqb_ℤ, Bytes, if◌then◌else◌,
}
use tpst.StdMap.{Map, find, bytes_key}
use tpst.PubSub.State.{PubsubWrapper}

-- The tests of the inner loop for one required number.
published_times : Option ℤ → ℤ → Bool
published_times none required = false
published_times (some times) required = eqb_ℤ times required

-- The loop over `eventNumSet`, which returns from the function at the first test that fails.
check_numbers : Option ℤ → List ℤ → Bool
unfolding published_times
check_numbers times [] = true
check_numbers times (n ∷ numbers) =
    if published_times times n then check_numbers times numbers else false

check_events : Map Bytes ℤ → Map Bytes (List ℤ) → Bool
unfolding check_numbers
check_events published [] = true
check_events published ((event, numbers) ∷ required) =
    if check_numbers (find event published) numbers then check_events published required else false

unfoldable pub check_if_triggure : PubsubWrapper → Bool
unfolding check_events
check_if_triggure psw = check_events psw.published_event psw.required_event_map
