-- ===== src/PubSub/Publish/Occurrences.antt =====
-- What a request to src/server/pubsub.cc asks of a list of publications.
use tpst.Prelude.{
  ℕ, zero, suc, ◌+◌, ◌≤◌, ◌<◌, ◌≡◌, ◌⊎◌, inl, inr, refl, sym, ◌∙◌, ap, true, List, [], ◌∷◌, ◌++◌, ℤ,
  pos, Bytes, bytes_eq, arith, take, length, length-append, if◌then◌else◌, leb, Bool-cases,
}
use mathlib.Core.Path.{subst}
use tpst.StdMap.{bytes_key, int_key, nat_key}
use tpst.PubSub.Subscribe.Spec.{asks}

-- How often an event stands in a list.
abbrev pub occurrences : Bytes → List Bytes → ℕ
occurrences event [] = 0
occurrences event (e ∷ events) =
    if bytes_eq e event then suc (occurrences event events) else occurrences event events

-- After the publications `seen` each event of a request has been published as often as it asks.
abbrev pub Complete : List Bytes → List Bytes → Type 0
Complete request seen =
    (event : Bytes) (n : ℤ) → asks event n request ≡ true → n ≡ pos (occurrences event seen)

-- This was so after some of the publications.
abbrev pub WasComplete : List Bytes → List Bytes → Type 0
WasComplete request seen = (k : ℕ) × Complete request (take k seen)

-- A request that asks for no event in a number below 1.
abbrev pub AsksPositive : List Bytes → Type 0
AsksPositive request =
    (event : Bytes) (n : ℤ) → asks event n request ≡ true → (m : ℕ) × (n ≡ pos (suc m))

pub occurrences-append :
    (event : Bytes) (xs ys : List Bytes)
    → occurrences event (xs ++ ys) ≡ occurrences event xs + occurrences event ys
occurrences-append event [] ys = omega arith
occurrences-append event (x ∷ xs) ys = ground (arith, occurrences-append event xs ys)

take_nil : (k : ℕ) → ◌≡◌ {A = List Bytes} (take k []) []
take_nil zero = refl
take_nil (suc k) = refl

pub take-within :
    (k : ℕ) (seen more : List Bytes) → k ≤ length seen → take k (seen ++ more) ≡ take k seen
take-within zero seen more h = refl
take-within (suc k) [] more h = absurd (omega (arith, h))
take-within (suc k) (e ∷ seen) more h =
    ap (λ es. e ∷ es) (take-within k seen more (omega (arith, h)))

pub take_past : (k : ℕ) (seen : List Bytes) → length seen ≤ k → take k seen ≡ seen
take_past k [] h = take_nil k
take_past zero (e ∷ seen) h = absurd (omega (arith, h))
take_past (suc k) (e ∷ seen) h = ap (λ es. e ∷ es) (take_past k seen (omega (arith, h)))

-- A number of publications, or all of them.
pub k-cases : (k : ℕ) (seen : List Bytes) → (k ≤ length seen) ⊎ (length seen < k)
k-cases k seen = elim (Bool-cases (leb k (length seen))) [
  | inl within ↦ inl (ground (arith, within))
  | inr past ↦ inr (ground (arith, past))
]

pub WasComplete-append :
    (request seen more : List Bytes) → WasComplete request seen → WasComplete request (seen ++ more)
WasComplete-append request seen more (k, complete) = elim (k-cases k seen) [
  | inl within ↦ (k, subst (Complete request) (sym (take-within k seen more within)) complete)
  | inr past ↦ (
    length seen,
    subst (Complete request)
        (take_past k seen (omega (arith, past))
          ∙ sym (take_past (length seen) seen (omega arith))
          ∙ sym (take-within (length seen) seen more (omega arith)))
        complete,
  )
]

pub WasComplete-snoc :
    (request seen : List Bytes) (event : Bytes)
    → WasComplete request (seen ++ event ∷ [])
    → WasComplete request seen ⊎ Complete request (seen ++ event ∷ [])
WasComplete-snoc request seen event (k, complete) = elim (k-cases k seen) [
  | inl within ↦ inl (k, subst (Complete request) (take-within k seen (event ∷ []) within) complete)
  | inr past ↦ inr (
      subst (Complete request)
        (take_past k (seen ++ event ∷ []) (omega (arith, past, length-append seen (event ∷ []))))
        complete)
]

pub WasComplete-whole :
    (request seen : List Bytes) → Complete request seen → WasComplete request seen
WasComplete-whole request seen complete = (
  length seen,
  subst (Complete request) (sym (take_past (length seen) seen (omega arith))) complete,
)

pub occurrences-snoc :
    (e event : Bytes) (seen : List Bytes)
    → occurrences e (seen ++ event ∷ [])
      ≡ (if bytes_eq event e then suc (occurrences e seen) else occurrences e seen)
occurrences-snoc e event seen = ground (arith, occurrences-append e seen (event ∷ []))
