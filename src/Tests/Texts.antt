-- ===== src/Tests/Texts.antt =====
-- The routines of src/utils on concrete texts.
use tpst.Prelude.{
  ℕ, ◌==◌, ◌≡◌, refl, Bool, true, false, List, [], ◌∷◌, ℤ, pos, negsuc, Bytes, codes, ok, err,
  bad_iterator, out_of_range, invalid_argument, All, if◌then◌else◌, arith,
}
use tpst.Utils.Stoi.{stoi}
use tpst.PubSub.Grid.Overlap.{Corner, IsGrid}
use tpst.Utils.Split.{split}
use tpst.Utils.Split.Words.{words, split-words}
use tpst.Utils.StrParse.{
  find, substr, trim, str_split, get_grid_from_raw_meta, get_bbx_from_grid_meta,
  get_ts_from_raw_meta,
}
use tpst.Utils.StrParse.RoundTrip.{join, IsField, Lacks, box, raw_meta, numbers, raw_meta_roundtrip}

split_tests :
    (split (codes "::a:bc:") (codes ":") ≡ ok (codes "a" ∷ codes "bc" ∷ []))
    × (split (codes ":") (codes ":") ≡ ok [])
unfolding split
split_tests = (refl, refl)

stoi_tests :
    (stoi (codes "-12") ≡ ok (negsuc 11))
    × (stoi (codes " 7x") ≡ ok (pos 7))
    × (stoi (codes "") ≡ err invalid_argument)
    × (stoi (codes "2147483648") ≡ err out_of_range)
unfolding stoi
stoi_tests = (refl, refl, refl, refl)

abbrev sample : Bytes
sample = codes "GRID[<0,-1>:<20,3>]%TS[5]"

str_parse_tests :
    (get_grid_from_raw_meta sample ≡ ok (codes "<0,-1>:<20,3>"))
    × (get_bbx_from_grid_meta (codes "<0,-1>:<20,3>")
        ≡ ok (pos 0 ∷ negsuc 0 ∷ [], pos 20 ∷ pos 3 ∷ []))
    × (get_ts_from_raw_meta sample ≡ ok (pos 5))
    × (get_grid_from_raw_meta (codes "NULL") ≡ err bad_iterator)
    × (get_bbx_from_grid_meta (codes "<>:<1>") ≡ ok ([], pos 1 ∷ []))
    × (get_bbx_from_grid_meta (codes ":<1>") ≡ err out_of_range)
    × (get_bbx_from_grid_meta (codes "<a>:<1>") ≡ err invalid_argument)
unfolding get_grid_from_raw_meta get_bbx_from_grid_meta get_ts_from_raw_meta stoi find substr trim
    str_split
str_parse_tests = (refl, refl, refl, refl, refl, refl, refl)

split-words_example : split (codes "T1::2") (codes ":") ≡ ok (words (codes ":") (codes "T1::2"))
split-words_example = split-words (codes "T1::2") (codes ":")

-- The corner `<0,5>`.
abbrev corner_fields : List (Bytes × ℤ)
corner_fields = (codes "0", pos 0) ∷ (codes "5", pos 5) ∷ []

abbrev lacks : ℕ → Bytes → Bool
lacks c [] = true
lacks c (d ∷ s) = if d == c then false else lacks c s

pub lacks-Lacks : (c : ℕ) (s : Bytes) → lacks c s ≡ true → Lacks c s
lacks-Lacks c [] h = tt
lacks-Lacks c (d ∷ s) h = ground (arith, lacks-Lacks c s)

corner_fields-IsField : All IsField corner_fields
unfolding stoi
corner_fields-IsField = (
  record { denotes = refl; no_comma = lacks-Lacks b',' (codes "0") refl },
  (record { denotes = refl; no_comma = lacks-Lacks b',' (codes "5") refl }, tt),
)

raw_meta_roundtrip_example :
    (get_grid_from_raw_meta (raw_meta (box corner_fields corner_fields) (codes "7"))
      ≡ ok (box corner_fields corner_fields))
    × (get_bbx_from_grid_meta (box corner_fields corner_fields)
        ≡ ok (numbers corner_fields, numbers corner_fields))
    × (get_ts_from_raw_meta (raw_meta (box corner_fields corner_fields) (codes "7")) ≡ ok (pos 7))
unfolding stoi join
raw_meta_roundtrip_example =
    raw_meta_roundtrip corner_fields corner_fields (codes "7") (pos 7) corner_fields-IsField
      corner_fields-IsField (lacks-Lacks b':' (codes "0,5") refl)
      (lacks-Lacks b'%' (codes "<0,5>:<0,5>") refl) refl

abbrev pub low : Corner
low = record { x = (codes "0", pos 0); y = (codes "0", pos 0) }

abbrev pub high : Corner
high = record { x = (codes "5", pos 5); y = (codes "5", pos 5) }

digit_IsField : (IsField (codes "0", pos 0)) × IsField (codes "5", pos 5)
unfolding stoi
digit_IsField = (
  record { denotes = refl; no_comma = lacks-Lacks b',' (codes "0") refl },
  record { denotes = refl; no_comma = lacks-Lacks b',' (codes "5") refl },
)

pub square-IsGrid : IsGrid low high
unfolding join
square-IsGrid = record {
  lower = (digit_IsField.0, (digit_IsField.0, tt));
  upper = (digit_IsField.1, (digit_IsField.1, tt));
  colon = lacks-Lacks b':' (codes "0,0") refl;
  ordered = (omega arith, omega arith);
}
