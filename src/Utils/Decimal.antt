-- ===== src/Utils/Decimal.antt =====
-- `std::to_string` of an `int`.
use tpst.Prelude.{
  ℕ, zero, suc, ◌+◌, ◌-◌, ◌*◌, ◌/◌, ◌%◌, ◌^◌, ◌<◌, ◌≡◌, refl, sym, ◌∙◌, ap, Bool, true, ◌&&◌, [],
  ◌∷◌, ◌++◌, ℤ, pos, negsuc, Bytes, ok, arith, ltb, if◌then◌else◌, Bool-cases, inl, inr,
}
use tpst.Utils.Stoi.{is_digit, digits_value, stoi, stoi-digits}

-- The decimal digits of a number, at most `fuel` of them.
pub to_digits : ℕ → ℕ → Bytes
to_digits zero n = []
to_digits (suc fuel) n =
    let rest = to_digits fuel (n / 10) ++ (b'0' + n % 10) ∷ [] in
    if ltb n 10 then (b'0' + n) ∷ [] else rest

unfoldable pub to_string : ℤ → Bytes
unfolding to_digits
to_string (pos n) = to_digits (suc n) n
to_string (negsuc n) = b'-' ∷ to_digits (suc (suc n)) (suc n)

abbrev all_digits : Bytes → Bool
all_digits [] = true
all_digits (c ∷ s) = is_digit c && all_digits s

all_digits-snoc :
    (s : Bytes) (c : ℕ) → all_digits s ≡ true → is_digit c ≡ true → all_digits (s ++ c ∷ []) ≡ true
all_digits-snoc [] c h k = ground (arith, k)
all_digits-snoc (d ∷ s) c h k = ground (arith, all_digits-snoc s c)

digits_value-snoc :
    (acc : ℕ) (s : Bytes) (c : ℕ)
    → all_digits s ≡ true
    → is_digit c ≡ true
    → digits_value acc (s ++ c ∷ []) ≡ digits_value acc s * 10 + (c - b'0')
unfolding digits_value
digits_value-snoc acc [] c h k = ground (arith, k)
digits_value-snoc acc (d ∷ s) c h k = ground (arith, digits_value-snoc (acc * 10 + (d - b'0')) s c)

digit-is_digit : (n : ℕ) → n < 10 → is_digit (b'0' + n) ≡ true
digit-is_digit n h = ground arith

to_digits-all : (fuel n : ℕ) → all_digits (to_digits fuel n) ≡ true
unfolding to_digits
to_digits-all zero n = refl
to_digits-all (suc fuel) n = elim (Bool-cases (ltb n 10)) [
  | inl small ↦ rw (small, to_digits) (ground (arith, small))
  | inr more ↦
      rw (more, to_digits)
        (all_digits-snoc (to_digits fuel (n / 10)) (b'0' + n % 10) (to_digits-all fuel (n / 10))
          (digit-is_digit (n % 10) (omega arith)))
]

to_digits-value : (fuel n : ℕ) → n < fuel → digits_value 0 (to_digits fuel n) ≡ n
unfolding to_digits
to_digits-value zero n h = elim h [ ]
to_digits-value (suc fuel) n h = elim (Bool-cases (ltb n 10)) [
  | inl small ↦ rw (small, to_digits) (unfold digits_value in ground (arith, small))
  | inr more ↦
      rw (more, to_digits)
        (digits_value-snoc 0 (to_digits fuel (n / 10)) (b'0' + n % 10) (to_digits-all fuel (n / 10))
            (digit-is_digit (n % 10) (omega arith))
          ∙ ground (arith, more, to_digits-value fuel (n / 10)))
]

to_digits-cons : (fuel n : ℕ) → (c : ℕ) × (s : Bytes) × (to_digits (suc fuel) n ≡ c ∷ s)
unfolding to_digits
to_digits-cons fuel n = elim (Bool-cases (ltb n 10)) [
  | inl small ↦ (b'0' + n, [], rw (small, to_digits) refl)
  | inr more ↦ rw (more, to_digits) (snoc_cons (to_digits fuel (n / 10)) (b'0' + n % 10))
]
  where
    snoc_cons : (s : Bytes) (d : ℕ) → (c : ℕ) × (r : Bytes) × (s ++ d ∷ [] ≡ c ∷ r)
    snoc_cons [] d = (d, [], refl)
    snoc_cons (c ∷ s) d = (c, s ++ d ∷ [], refl)

-- A number that fits an `int` is read back from its text.
pub stoi-to_string : (n : ℕ) → n < 2 ^ 31 → stoi (to_string (pos n)) ≡ ok (pos n)
unfolding to_string
stoi-to_string n small =
    let (c, s, shape) = to_digits-cons n n in
    let digits = to_digits-all (suc n) n in
    let value = to_digits-value (suc n) n (omega arith) in
    let first : is_digit c ≡ true = ground (arith, ap all_digits shape, digits) in
    let whole : digits_value 0 (c ∷ s) ≡ n = sym (ap (digits_value 0) shape) ∙ value in
    ap stoi shape ∙ stoi-digits c s first (omega (arith, whole)) ∙ ap (λ m. ok (pos m)) whole
