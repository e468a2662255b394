-- ===== src/LoadData.antt =====
-- The names of files, src/utils/file/loaddata.cpp. A `char *` is the bytes before its NUL.
use tpst.Prelude.{
  suc, ◌+◌, ◌-◌, ◌≡◌, refl, ◌∙◌, ap, Bool, true, false, List, [], ◌∷◌, ◌++◌, Option, none, some,
  Bytes, codes, bytes_eq, Result, ok, err, ◌>>=◌, overflow, exit_failure, length, length-append,
  take, drop, ltb, if◌then◌else◌, arith,
}
use tpst.Utils.StrParse.RoundTrip.{take-length, drop-suc-length}
use tpst.GroupManager.{FileSystem}
use tpst.GroupManager.Address.{starts_with, find_text}

-- `strstr(filename, part) != NULL`.
abbrev pub has_text : Bytes → Bytes → Bool
has_text part s = elim (find_text part s) [ none ↦ false | some i ↦ true ]

-- `loadFile`: the contents of the file, which is `none` where it cannot be opened.
abbrev pub load_file : Option Bytes → Result Bytes
load_file none = err exit_failure
load_file (some content) = ok content

-- `strncpy` of all but the last five bytes, and a NUL behind them, into what `malloc(sizeof(filename))`
-- has returned, the 8 bytes of a pointer. Of fewer than five bytes `len - 5` is less than 0, and as a
-- `size_t` past every buffer.
unfoldable pub copy_stem : Bytes → Result Bytes
copy_stem filename =
    if ltb (length filename) 5
    then err overflow
    else if ltb (length filename - 5) 8
    then ok (take (length filename - 5) filename)
    else err overflow

-- `getTaskNameFromEventName`: `none` is the null pointer.
unfoldable pub get_task_name_from_event_name : Bytes → Result (Option Bytes)
unfolding copy_stem
get_task_name_from_event_name filename =
    if has_text (codes "swp") filename
    then ok none
    else if has_text (codes "swx") filename
    then ok none
    else if has_text (codes "json") filename
    then (copy_stem filename >>= λ stem. ok (some stem))
    else ok none

-- `ifjson`: `filename + len - 4` is within the name, which has `json` in it.
unfoldable pub if_json : Bytes → Bool
if_json filename =
    if has_text (codes "swp") filename
    then false
    else if has_text (codes "swx") filename
    then false
    else if has_text (codes "json") filename
    then bytes_eq (drop (length filename - 4) filename) (codes "json")
    else false

-- `scanFolder`: the entries `.` and `..` are among them.
unfoldable pub scan_folder : (fs : FileSystem) → Bytes → fs.Disk → List Bytes
scan_folder fs dirpath d = elim (fs.entries dirpath d) [ none ↦ [] | some names ↦ names ]

-- The file of a task.
abbrev pub task_file : Bytes → Bytes
task_file name = name ++ codes ".json"

task_file-has_text : (name : Bytes) → has_text (codes "json") (task_file name) ≡ true
unfolding find_text starts_with
task_file-has_text [] = refl
task_file-has_text (c ∷ name) = ground (arith, task_file-has_text name)

length-task_file : (name : Bytes) → length (task_file name) ≡ length name + 5
length-task_file name = length-append name (codes ".json")

task_file-suffix :
    (name : Bytes) → drop (length (task_file name) - 4) (task_file name) ≡ codes "json"
task_file-suffix name =
    let four : length (task_file name) - 4 ≡ suc (length name) =
      omega (arith, length-task_file name) in
    ap (λ n. drop n (task_file name)) four ∙ drop-suc-length name b'.' (codes "json")

copy_stem-task_file :
    (name : Bytes)
    → copy_stem (task_file name) ≡ (if ltb (length name) 8 then ok name else err overflow)
unfolding copy_stem
copy_stem-task_file name =
    let five : length (task_file name) - 5 ≡ length name = omega (arith, length-task_file name) in
    let long : ltb (length (task_file name)) 5 ≡ false = ground (arith, length-task_file name) in
    rw (long, five, take-length name (codes ".json")) refl

-- The name of a file that ends in .json and has no swp and no swx in it is that of a JSON file, and the
-- name of its task is what stands before .json if this has less than 8 bytes; of 8 or more the copy
-- runs past the end of its buffer.
pub task_name-task_file :
    (name : Bytes)
    → has_text (codes "swp") (task_file name) ≡ false
    → has_text (codes "swx") (task_file name) ≡ false
    → (if_json (task_file name) ≡ true)
      × (get_task_name_from_event_name (task_file name)
          ≡ (if ltb (length name) 8 then ok (some name) else err overflow))
unfolding if_json get_task_name_from_event_name bytes_eq
task_name-task_file name swp swx =
    rw (swp, swx, task_file-has_text name, task_file-suffix name, copy_stem-task_file name)
      (refl, ground arith)
