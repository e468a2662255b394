-- ===== src/Utils/StrParse/RoundTrip.antt =====
-- The parsers of src/utils/strparse/strparse.cpp return what a well-formed text was made of.
use tpst.Prelude.{
  ℕ, zero, suc, ◌+◌, ◌≤◌, ◌≡◌, ◌≢◌, refl, List, [], ◌∷◌, ◌++◌, some, ℤ, Bytes, codes, ok, ◌>>=◌,
  length, length-append, take, drop, arith, All, All-append, map, ap, ◌∙◌,
}
use mathlib.Core.List.{append_assoc, append-nil}
use native.Mathlib.Nat.{le_refl}
use tpst.Utils.Stoi.{stoi}
use tpst.Utils.StrParse.{
  find, substr, size_sub, field, behind, str_split_loop, str_split, get_grid_from_raw_meta, trim,
  get_ts_from_raw_meta, get_bbx_from_grid_meta,
}

abbrev pub Lacks : ℕ → Bytes → Type 0
Lacks c = All (λ d. d ≢ c)

-- The fields with commas between them.
unfoldable pub join : List Bytes → Bytes
join [] = []
join (w ∷ []) = w
join (w ∷ v ∷ ws) = w ++ b',' ∷ join (v ∷ ws)

-- A text and the integer that it denotes.
pub record IsField (f : Bytes × ℤ) : Type 0 where
  pub denotes : stoi f.0 ≡ ok f.1
  pub no_comma : Lacks b',' f.0

pub take-length {ℓ} : {A : Type ℓ} (xs ys : List A) → take (length xs) (xs ++ ys) ≡ xs
take-length [] ys = refl
take-length (x ∷ xs) ys = ap (λ zs. x ∷ zs) (take-length xs ys)

pub drop-length {ℓ} : {A : Type ℓ} (xs ys : List A) → drop (length xs) (xs ++ ys) ≡ ys
drop-length [] ys = refl
drop-length (x ∷ xs) ys = drop-length xs ys

pub drop-suc-length {ℓ} :
    {A : Type ℓ} (xs : List A) (x : A) (ys : List A) → drop (suc (length xs)) (xs ++ x ∷ ys) ≡ ys
drop-suc-length [] x ys = refl
drop-suc-length (y ∷ xs) x ys = drop-suc-length xs x ys

pub find-append : (c : ℕ) (s t : Bytes) → Lacks c s → find c (s ++ c ∷ t) ≡ some (length s)
unfolding find
find-append c [] t h = ground arith
find-append c (d ∷ s) t h = ground (arith, find-append c s t)

field-append : (s t : Bytes) → Lacks b',' s → field (s ++ b',' ∷ t) ≡ s
unfolding field
field-append [] t h = refl
field-append (d ∷ s) t h = ground (arith, field-append s t)

field_self : (s : Bytes) → Lacks b',' s → field s ≡ s
unfolding field
field_self [] h = refl
field_self (d ∷ s) h = ground (arith, field_self s)

behind-append : (s t : Bytes) → Lacks b',' s → behind (s ++ b',' ∷ t) ≡ t
unfolding behind
behind-append [] t h = refl
behind-append (d ∷ s) t h = ground (arith, behind-append s t)

behind_self : (s : Bytes) → Lacks b',' s → behind s ≡ []
unfolding behind
behind_self [] h = refl
behind_self (d ∷ s) h = ground (arith, behind_self s)

abbrev pub texts : List (Bytes × ℤ) → List Bytes
texts = map (λ f. f.0)

abbrev pub numbers : List (Bytes × ℤ) → List ℤ
numbers = map (λ f. f.1)

no_number : {z : ℤ} → stoi [] ≢ ok z
unfolding stoi
no_number e = cc

str_split_loop-join :
    (fuel : ℕ) (fs : List (Bytes × ℤ)) (words : List ℤ)
    → All IsField fs
    → length (join (texts fs)) ≤ fuel
    → str_split_loop fuel (join (texts fs)) words ≡ ok (words ++ numbers fs)
unfolding str_split_loop join
str_split_loop-join fuel [] words h enough = simp append-nil
str_split_loop-join fuel (([], z) ∷ []) words h enough = absurd (no_number h.0.denotes)
str_split_loop-join zero ((c ∷ t, z) ∷ []) words h enough = absurd (omega arith)
str_split_loop-join (suc fuel) ((c ∷ t, z) ∷ []) words h enough =
    rw (field_self (c ∷ t) h.0.no_comma, behind_self (c ∷ t) h.0.no_comma, h.0.denotes)
str_split_loop-join fuel (([], z) ∷ f ∷ fs) words h enough = absurd (no_number h.0.denotes)
str_split_loop-join zero ((c ∷ t, z) ∷ f ∷ fs) words h enough = absurd (omega arith)
str_split_loop-join (suc fuel) ((c ∷ t, z) ∷ f ∷ fs) words h enough =
    rw
      (
        field-append (c ∷ t) (join (texts (f ∷ fs))) h.0.no_comma,
        behind-append (c ∷ t) (join (texts (f ∷ fs))) h.0.no_comma,
        h.0.denotes,
      )
      (str_split_loop-join fuel (f ∷ fs) (words ++ z ∷ []) h.1
          (omega (arith, length-append t (b',' ∷ join (texts (f ∷ fs)))))
        ∙ simp append_assoc)

pub str_split-join :
    (fs : List (Bytes × ℤ)) → All IsField fs → str_split (join (texts fs)) ≡ ok (numbers fs)
unfolding str_split
str_split-join fs h = str_split_loop-join _ fs [] h (le_refl _)

take_all {ℓ} : {A : Type ℓ} (n : ℕ) (xs : List A) → length xs ≤ n → take n xs ≡ xs
take_all zero [] h = refl
take_all zero (x ∷ xs) h = absurd (omega arith)
take_all (suc n) [] h = refl
take_all (suc n) (x ∷ xs) h = ap (λ ys. x ∷ ys) (take_all n xs (omega arith))

-- A length that does not wrap.
size_sub-append : (xs ys : Bytes) → size_sub (length (xs ++ ys)) (length ys) ≡ length xs
size_sub-append xs ys = ground (arith, length-append xs ys)

substr-front :
    (xs : Bytes) (y : ℕ) → substr 0 (size_sub (length (xs ++ y ∷ [])) 1) (xs ++ y ∷ []) ≡ ok xs
unfolding substr
substr-front xs y = rw (size_sub-append xs (y ∷ []), take-length xs (y ∷ [])) (ground arith)

-- The two brackets go.
trim_lem : (l r : ℕ) (w : Bytes) → trim (l ∷ (w ++ r ∷ [])) ≡ ok w
unfolding trim
trim_lem l r w =
    rw (substr-front (l ∷ w) r) (unfold substr in ground (arith, take_all (suc (length w)) w))

abbrev pub corner : List (Bytes × ℤ) → Bytes
corner fs = b'<' ∷ (join (texts fs) ++ b'>' ∷ [])

-- `<l0,l1>:<u0,u1>`
abbrev pub box : List (Bytes × ℤ) → List (Bytes × ℤ) → Bytes
box lbs ubs = corner lbs ++ b':' ∷ corner ubs

-- `GRID[<l0,l1>:<u0,u1>]%TS[n]`
abbrev pub raw_meta : Bytes → Bytes → Bytes
raw_meta grid number =
    (codes "GRID[" ++ (grid ++ b']' ∷ [])) ++ b'%' ∷ (codes "TS[" ++ (number ++ b']' ∷ []))

corner-Lacks : (fs : List (Bytes × ℤ)) → Lacks b':' (join (texts fs)) → Lacks b':' (corner fs)
corner-Lacks fs h = (omega arith, All-append _ (join (texts fs)) _ h (omega arith, tt))

pub find-box :
    (lbs ubs : List (Bytes × ℤ))
    → Lacks b':' (join (texts lbs))
    → find b':' (box lbs ubs) ≡ some (length (corner lbs))
find-box lbs ubs h = find-append b':' (corner lbs) (corner ubs) (corner-Lacks lbs h)

pub get_bbx-box :
    (lbs ubs : List (Bytes × ℤ))
    → All IsField lbs
    → All IsField ubs
    → Lacks b':' (join (texts lbs))
    → get_bbx_from_grid_meta (box lbs ubs) ≡ ok (numbers lbs, numbers ubs)
unfolding get_bbx_from_grid_meta
get_bbx-box lbs ubs hl hu h =
    rw
      (
        find-box lbs ubs h,
        take-length (corner lbs) (b':' ∷ corner ubs),
        drop-suc-length (corner lbs) b':' (corner ubs),
        trim_lem b'<' b'>' (join (texts lbs)),
        trim_lem b'<' b'>' (join (texts ubs)),
        str_split-join lbs hl,
        str_split-join ubs hu,
      )
      refl

raw_grid-Lacks :
    (grid : Bytes) → Lacks b'%' grid → Lacks b'%' (codes "GRID[" ++ (grid ++ b']' ∷ []))
raw_grid-Lacks grid h =
    All-append _ (codes "GRID[") _ (omega arith) (All-append _ grid _ h (omega arith, tt))

substr-inner :
    (front w back : Bytes)
    → substr
        (length front)
        (size_sub (length (front ++ (w ++ back))) (length front + length back))
        (front ++ (w ++ back))
      ≡ ok w
unfolding substr
substr-inner front w back =
    rw (drop-length front (w ++ back), inner)
      (ground (arith, take-length w back, length-append front (w ++ back)))
  where
    inner : size_sub (length (front ++ (w ++ back))) (length front + length back) ≡ length w
    inner = ground (arith, length-append front (w ++ back), length-append w back)

get_grid-percent :
    (s t : Bytes)
    → Lacks b'%' s
    → get_grid_from_raw_meta (s ++ b'%' ∷ t) ≡ substr 5 (size_sub (length s) 6) s
unfolding get_grid_from_raw_meta
get_grid-percent s t h = rw (find-append b'%' s t h, take-length s (b'%' ∷ t))

get_ts-percent :
    (s t : Bytes)
    → Lacks b'%' s
    → get_ts_from_raw_meta (s ++ b'%' ∷ t) ≡ (substr 3 (size_sub (length t) 4) t >>= stoi)
unfolding get_ts_from_raw_meta
get_ts-percent s t h = rw (find-append b'%' s t h, drop-suc-length s b'%' t)

pub get_grid-raw_meta :
    (grid number : Bytes)
    → Lacks b'%' grid
    → get_grid_from_raw_meta (raw_meta grid number) ≡ ok grid
get_grid-raw_meta grid number h =
    get_grid-percent _ (codes "TS[" ++ (number ++ b']' ∷ [])) (raw_grid-Lacks grid h)
    ∙ substr-inner (codes "GRID[") grid (b']' ∷ [])

-- The parts of `GRID[<l0,l1>:<u0,u1>]%TS[n]` come back from it: the grid, its two corners of any
-- dimension, and the time step. Each number is a text that `stoi` reads, without a comma; the lower
-- corner has no `:`, and no part of the grid a `%`.
pub raw_meta_roundtrip :
    (lbs ubs : List (Bytes × ℤ)) (number : Bytes) (z : ℤ)
    → All IsField lbs
    → All IsField ubs
    → Lacks b':' (join (texts lbs))
    → Lacks b'%' (box lbs ubs)
    → stoi number ≡ ok z
    → (get_grid_from_raw_meta (raw_meta (box lbs ubs) number) ≡ ok (box lbs ubs))
      × (get_bbx_from_grid_meta (box lbs ubs) ≡ ok (numbers lbs, numbers ubs))
      × (get_ts_from_raw_meta (raw_meta (box lbs ubs) number) ≡ ok z)
raw_meta_roundtrip lbs ubs number z hl hu colon percent d = (
  get_grid-raw_meta grid number percent,
  get_bbx-box lbs ubs hl hu colon,
  get_ts-percent (codes "GRID[" ++ (grid ++ b']' ∷ [])) _ (raw_grid-Lacks grid percent)
      ∙ ap (λ r. r >>= stoi) (substr-inner (codes "TS[") number (b']' ∷ []))
      ∙ d,
)
  where
    grid : Bytes
    grid = box lbs ubs
