-- ===== src/Tests/Groups.antt =====
-- src/utils/groupManager, src/utils/dht and src/utils/dlm on concrete servers, events and processes.
use tpst.Prelude.{
  ℕ, ◌≤◌, ◌≡◌, refl, ◌∙◌, sym, Bool, true, false, List, [], ◌∷◌, Option, none, some, ℤ, pos, negsuc,
  ltb_ℤ, Bytes, codes, bytes_eq, bytes_eq_iff, ok, ltb, ◌==◌, if◌then◌else◌, arith,
}
use tpst.Utils.Decimal.{to_string}
use tpst.GroupManager.{
  cluster_path, record_ip_port, status_worker, free_pool_dir, below, FileSystem, get_free_node_list,
}
use tpst.GroupManager.Pool.{has, Holds, Deletes}
use tpst.Dlm.{
  LockFile, outside, created, Process, Action, enter, attempt, write_identity, release, System, run,
}
use tpst.Dlm.Exclusion.{owners, MostOpened, run-IsExclusive}

-- Rank 7 of four groups of two servers: slot 1 of cluster 3.
-- A disk that is the pool and nothing else.
abbrev pub strip : Bytes → Bytes → Option Bytes
strip [] s = some s
strip (c ∷ p) [] = none
strip (c ∷ p) (d ∷ s) = if c == d then strip p s else none

abbrev pub without : Bytes → List Bytes → List Bytes
without name [] = []
without name (x ∷ xs) = let rest = without name xs in if bytes_eq x name then rest else x ∷ rest

pub has-without :
    (x name : Bytes) (xs : List Bytes)
    → has x (without name xs) ≡ (if bytes_eq x name then false else has x xs)
has-without x name [] = ground arith
has-without x name (y ∷ ys) =
    ground
      (arith, has-without x name ys, bytes_eq_iff x name, bytes_eq_iff y name, bytes_eq_iff x y)

abbrev pub delete_entry : List Bytes → Option Bytes → Option (List Bytes)
delete_entry d none = none
delete_entry d (some name) =
    if bytes_eq name (codes ".")
    then none
    else if bytes_eq name (codes "..")
    then none
    else if has name d
    then some (without name d)
    else none

abbrev pool_only : FileSystem
pool_only = record {
  Disk = List Bytes;
  entries = λ dir d. if bytes_eq dir free_pool_dir then some d else none;
  readable = λ dir d. true;
  make_dir = λ dir d. none;
  make_file = λ file d. none;
  delete = λ path d. delete_entry d (strip (below free_pool_dir []) path);
}

-- A disk that is the paths that were made.
abbrev made_files : FileSystem
made_files = record {
  Disk = List Bytes;
  entries = λ dir d. none;
  readable = has;
  make_dir = λ dir d. some (dir ∷ d);
  make_file = λ file d. some (file ∷ d);
  delete = λ path d. none;
}

rank_7 :
    record_ip_port made_files 1 (codes "10.0.0.7") (codes "1") (cluster_path (pos 3)) 7 4 2 []
    ≡ ok (
      codes "./multinodeip/cluster3/worker/10.0.0.7:1"
          ∷ codes "./multinodeip/cluster3/worker"
          ∷ codes "./multinodeip/cluster3"
          ∷ codes "./multinodeip"
          ∷ [],
      status_worker,
      some (codes "10.0.0.7"),
    )
unfolding record_ip_port to_string bytes_eq
rank_7 = refl

strip-below : (name : Bytes) → strip (below free_pool_dir []) (below free_pool_dir name) ≡ some name
strip-below name = refl

pool_only-held :
    (d : List Bytes) (held : Bytes → Bool) → Holds pool_only d held → (x : Bytes) → held x ≡ has x d
unfolding bytes_eq
pool_only-held d held (names, there, exactly) x =
    let same : d ≡ names = cc in sym (exactly x) ∙ rw same refl

pool_only-Deletes : Deletes pool_only
unfolding bytes_eq
pool_only-Deletes = record {
  gone = λ d held name (first, second, other, names, listed, among) h there. (
    without name d,
    rw (first, second, sym (pool_only-held d held h name) ∙ there) refl,
    (without name d, refl, λ x. has-without x name d ∙ rw (pool_only-held d held h x) refl),
  );
  absent = λ d held name (first, second, other, names, listed, among) h missing.
      rw (first, second, sym (pool_only-held d held h name) ∙ missing) refl;
}

abbrev pool : List Bytes
pool = codes "." ∷ codes "10.0.0.7:1" ∷ codes ".." ∷ codes "10.0.0.8:1" ∷ codes "10.0.0.9:1" ∷ []

-- A need of no server takes the whole pool.
takes_all :
    get_free_node_list pool_only (pos 0) pool
    ≡ ok (
      codes "10.0.0.7:1" ∷ codes "10.0.0.8:1" ∷ codes "10.0.0.9:1" ∷ [],
      codes "." ∷ codes ".." ∷ [],
    )
unfolding get_free_node_list bytes_eq
takes_all = refl

-- A disk with one file, and processes that may have eight descriptors open.
abbrev open_new_file : ℕ → Option Bytes → Option Bytes × ℤ
open_new_file n none = if ltb n 8 then (some [], pos n) else (none, negsuc 0)
open_new_file n (some text) = (some text, negsuc 0)

abbrev is_there : Option Bytes → Bool
is_there none = false
is_there (some text) = true

one_file-open_new :
    (n : ℕ) (d : Option Bytes)
    → ltb_ℤ (pos 0) (open_new_file n d).1 ≡ true
    → (is_there d ≡ false) × (is_there (open_new_file n d).0 ≡ true)
one_file-open_new n none h = ground arith
one_file-open_new n (some text) h = ground arith

one_file-keeps :
    (n : ℕ) (d : Option Bytes) → is_there d ≡ true → is_there (open_new_file n d).0 ≡ true
one_file-keeps n none h = cc
one_file-keeps n (some text) h = refl

one_file-full : (n : ℕ) (d : Option Bytes) → 8 ≤ n → ltb_ℤ (pos 0) (open_new_file n d).1 ≡ false
one_file-full n none h = ground arith
one_file-full n (some text) h = ground arith

one_file-write : (text : Bytes) (d : Option Bytes) → is_there d ≡ true → is_there (some text) ≡ true
one_file-write text d h = refl

abbrev one_file : LockFile
one_file = record {
  Disk = Option Bytes;
  exists = is_there;
  open_excl = open_new_file;
  write = λ text d. some text;
  remove = λ d. none;
  most_open = 8;
  open_new = one_file-open_new;
  open_keeps = one_file-keeps;
  open_full = one_file-full;
  write_keeps = one_file-write;
}

abbrev idle : Process
idle = record { phase = outside; opened = 3 }

abbrev two_idle : System one_file
two_idle = record { disk = none; processes = idle ∷ idle ∷ [] }

-- The second process gets the lock once the first has released it.
abbrev turns : List Action
turns =
    enter 0
    ∷ enter 1
    ∷ attempt 0
    ∷ attempt 1
    ∷ write_identity 0 (codes "a")
    ∷ release 0
    ∷ attempt 1
    ∷ []

abbrev second_owns : System one_file
second_owns = record {
  disk = some [];
  processes = record { phase = outside; opened = 4 } ∷ record { phase = created; opened = 4 } ∷ [];
}

run-turns : run one_file turns two_idle ≡ some second_owns
unfolding run
run-turns = refl

run-IsExclusive_example :
    (owners second_owns.processes ≤ 1)
    × (owners second_owns.processes ≡ 1 → one_file.exists second_owns.disk ≡ true)
    × MostOpened second_owns.processes 8
run-IsExclusive_example =
    run-IsExclusive one_file turns two_idle second_owns (refl, (refl, tt)) (omega arith) run-turns
