-- ===== src/Utils/Split/Words.antt =====
-- `split` against a one-pass description: it always returns the maximal runs without separators.
use tpst.Prelude.{
  ℕ, zero, suc, ◌≤◌, ◌≡◌, ◌≢◌, refl, false, not, List, [], ◌∷◌, ◌++◌, Bytes, ok, length, arith, All,
  All-append, filter, if◌then◌else◌, Bool-cases, inl, inr, ◌∙◌, ap, sym,
}
use mathlib.Core.List.{append_assoc, append-nil, flatten}
use native.Mathlib.Nat.{le_refl}
use tpst.Utils.Split.{is_sep, skip, token, after, push_token, split_loop, split}

abbrev flush : Bytes → List Bytes
flush [] = []
flush (c ∷ t) = (c ∷ t) ∷ []

-- `cur` is the run that is being read.
pub words_after : Bytes → Bytes → Bytes → List Bytes
words_after seps cur [] = flush cur
words_after seps cur (c ∷ s) =
    let ends = flush cur ++ words_after seps [] s in
    let goes = words_after seps (cur ++ c ∷ []) s in if is_sep seps c then ends else goes

pub words : Bytes → Bytes → List Bytes
unfolding words_after
words seps s = words_after seps [] s

module _ (seps : Bytes) where
  words_after-skip : (s : Bytes) → words_after seps [] (skip seps s) ≡ words_after seps [] s
  unfolding words_after skip
  words_after-skip [] = refl
  words_after-skip (c ∷ s) = elim (Bool-cases (is_sep seps c)) [
    | inl e ↦ rw e (words_after-skip s)
    | inr e ↦ simp e
  ]

  words_after-token :
      (cur s : Bytes)
      → words_after seps cur s ≡ flush (cur ++ token seps s) ++ words_after seps [] (after seps s)
  unfolding words_after token after
  words_after-token cur [] = simp append-nil
  words_after-token cur (c ∷ s) = elim (Bool-cases (is_sep seps c)) [
    | inl e ↦ simp (e, append-nil)
    | inr e ↦ simp e (words_after-token (cur ++ c ∷ []) s ∙ simp append_assoc)
  ]

  length-skip-le : (s : Bytes) → length (skip seps s) ≤ length s
  unfolding skip
  length-skip-le [] = omega arith
  length-skip-le (c ∷ s) = ground (arith, length-skip-le s)

  length-after-le : (s : Bytes) → length (after seps s) ≤ length s
  unfolding after
  length-after-le [] = omega arith
  length-after-le (c ∷ s) = ground (arith, length-after-le s)

  -- A round moves on: what it does not skip it takes.
  length-after-skip : (c : ℕ) (s : Bytes) → length (after seps (skip seps (c ∷ s))) ≤ length s
  unfolding skip after
  length-after-skip c s =
      ground (arith, length-after-le (skip seps s), length-skip-le s, length-after-le s)

  push_token-flush : (result : List Bytes) (t : Bytes) → push_token result t ≡ result ++ flush t
  unfolding push_token
  push_token-flush result [] = sym (append-nil result)
  push_token-flush result (c ∷ t) = refl

  -- A round appends the run that it takes.
  round-words :
      (result : List Bytes) (s : Bytes)
      → push_token result (token seps (skip seps s))
          ++ words_after seps [] (after seps (skip seps s))
        ≡ result ++ words_after seps [] s
  round-words result s =
      rw (push_token-flush, append_assoc, ← words_after-token [] (skip seps s))
        (ap (λ ws. result ++ ws) (words_after-skip s))

  split_loop-words :
      (fuel : ℕ) (s : Bytes) (result : List Bytes)
      → length s ≤ fuel
      → split_loop fuel seps s result ≡ ok (result ++ words_after seps [] s)
  unfolding split_loop
  split_loop-words fuel [] result h = unfold words_after in simp append-nil
  split_loop-words zero (c ∷ s) result h = absurd (omega arith)
  split_loop-words (suc fuel) (c ∷ s) result h =
      split_loop-words fuel (after seps (skip seps (c ∷ s)))
        (push_token result (token seps (skip seps (c ∷ s)))) (omega (arith, length-after-skip c s))
      ∙ ap ok (round-words result (c ∷ s))

-- `split` always returns, and returns the maximal runs of bytes that are no separators.
pub split-words : (s seps : Bytes) → split s seps ≡ ok (words seps s)
unfolding split words
split-words s seps = split_loop-words seps (length s) s [] (le_refl _)

abbrev pub IsWord : Bytes → Bytes → Type 0
IsWord seps t = (t ≢ []) × All (λ c. is_sep seps c ≡ false) t

module _ (seps : Bytes) where
  flush-IsWord : (t : Bytes) → All (λ c. is_sep seps c ≡ false) t → All (IsWord seps) (flush t)
  flush-IsWord [] h = tt
  flush-IsWord (c ∷ t) h = (((λ e. cc), h), tt)

  words_after-IsWord :
      (cur s : Bytes)
      → All (λ c. is_sep seps c ≡ false) cur
      → All (IsWord seps) (words_after seps cur s)
  unfolding words_after
  words_after-IsWord cur [] h = flush-IsWord cur h
  words_after-IsWord cur (c ∷ s) h = elim (Bool-cases (is_sep seps c)) [
    | inl e ↦ rw e (All-append _ (flush cur) _ (flush-IsWord cur h) (words_after-IsWord [] s tt))
    | inr e ↦ rw e (words_after-IsWord (cur ++ c ∷ []) s (All-append _ cur _ h (e, tt)))
  ]

  flatten-append : (xs ys : List Bytes) → flatten (xs ++ ys) ≡ flatten xs ++ flatten ys
  unfolding flatten
  flatten-append [] ys = refl
  flatten-append (x ∷ xs) ys = simp (flatten-append xs ys, append_assoc)

  flatten-flush : (t : Bytes) → flatten (flush t) ≡ t
  unfolding flatten
  flatten-flush [] = refl
  flatten-flush (c ∷ t) = simp append-nil

  flatten-words_after :
      (cur s : Bytes)
      → flatten (words_after seps cur s) ≡ cur ++ filter (λ c. not (is_sep seps c)) s
  unfolding words_after
  flatten-words_after cur [] = simp (flatten-flush, append-nil)
  flatten-words_after cur (c ∷ s) = elim (Bool-cases (is_sep seps c)) [
    | inl e ↦ simp (e, flatten-append, flatten-flush, flatten-words_after [] s)
    | inr e ↦ simp (e, flatten-words_after (cur ++ c ∷ []) s, append_assoc)
  ]

-- `split` returns non-empty words without separators, and in order they hold every other byte.
pub split_sound :
    (s seps : Bytes)
    → (ws : List Bytes) × (split s seps ≡ ok ws)
      × All (IsWord seps) ws
      × (flatten ws ≡ filter (λ c. not (is_sep seps c)) s)
split_sound s seps = (
  words seps s,
  split-words s seps,
  unfold words in words_after-IsWord seps [] s tt,
  unfold words in flatten-words_after seps [] s,
)
