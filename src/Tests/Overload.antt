-- ===== src/Tests/Overload.antt =====
-- `checkOverload` of src/server/workflowserver.cc with one overloaded event and three free servers.
use tpst.Prelude.{
  ◌≡◌, refl, ◌∙◌, sym, Bool, true, not, ◌&&◌, List, [], ◌∷◌, Option, none, some, ℤ, pos, ◌+ℤ◌, ◌-ℤ◌,
  ◌/◌, ltb_ℤ, Bytes, codes, bytes_eq, bytes_lt, ok, err, Error, out_of_fuel, ◌≢◌, ◌⊎◌,
  if◌then◌else◌,
}
use tpst.StdMap.{bytes_key, find, find_or, put, touch}
use tpst.PubSub.State
use tpst.Coordinator.Double.{Double}
use tpst.Coordinator.Plan.{sub_metas, plan_sorted, plan_loop, plan_round}
use tpst.GroupManager.{FileSystem, free_pool_dir, below}
use tpst.GroupManager.Pool.{has, Holds, Deletes}
use tpst.Server.State.{ServerState}
use tpst.Server.Redistribute.{RedistributeRequest}
use tpst.Server.Overload.{Overload, check_overload}
use tpst.Server.Overload.Ends.{Stays}
use tpst.Server.Overload.Pool.{Apart, check_overload-takes}
use tpst.Tests.Groups.{strip, without, has-without, delete_entry}

-- A disk that is the pool and the paths of the other files.
abbrev Store : Type 0
Store = List Bytes × List Bytes

abbrev delete_in : List Bytes → Option (List Bytes) → Option Store
delete_in files none = none
delete_in files (some names) = some (names, files)

abbrev make_other : Bytes → Store → Option Bytes → Option Store
make_other file d (some name) = none
make_other file d none = some (d.0, file ∷ d.1)

abbrev store : FileSystem
store = record {
  Disk = Store;
  entries = λ dir d. if bytes_eq dir free_pool_dir then some d.0 else none;
  readable = λ dir d. true;
  make_dir = λ dir d. none;
  make_file = λ file d. make_other file d (strip (below free_pool_dir []) file);
  delete = λ path d. delete_in d.1 (delete_entry d.0 (strip (below free_pool_dir []) path));
}

abbrev cluster : Bytes
cluster = codes "./multinodeip/cluster0"

store-held :
    (d : Store) (held : Bytes → Bool) → Holds store d held → (x : Bytes) → held x ≡ has x d.0
unfolding bytes_eq
store-held d held (names, there, exactly) x =
    let same : d.0 ≡ names = cc in sym (exactly x) ∙ rw same refl

store-Deletes : Deletes store
unfolding bytes_eq
store-Deletes = record {
  gone = λ d held name (first, second, other, names, listed, among) h there. (
    (without name d.0, d.1),
    rw (first, second, sym (store-held d held h name) ∙ there) refl,
    (without name d.0, refl, λ x. has-without x name d.0 ∙ rw (store-held d held h x) refl),
  );
  absent = λ d held name (first, second, other, names, listed, among) h missing.
      rw (first, second, sym (store-held d held h name) ∙ missing) refl;
}

store-Apart : Apart store cluster
unfolding bytes_eq
store-Apart = record { dirs = λ d e made. cc; files = λ addr d e named made. cc }

store-Stays : Stays store cluster
store-Stays = record {
  files = λ addr d e made there. refl;
  deletes = λ name d e named gone there. refl;
}

abbrev div_ℤ : ℤ → ℤ → ℤ
div_ℤ (pos a) (pos b) = pos (a / b)
div_ℤ a b = pos 0

-- Whole numbers in place of `double`, with the quotient rounded down.
instance abbrev pub rounded : Double ℤ
rounded = record {
  of_int = λ n. n;
  add = λ a b. a +ℤ b;
  sub = λ a b. a -ℤ b;
  mul = λ a b. a;
  div = div_ℤ;
  gt = λ a b. ltb_ℤ b a;
  floor = λ a. a;
  ceil = λ a. a;
}

-- One server with three subscriptions to T1.
abbrev overloaded : ServerState
overloaded = record {
  pubsub = tpst.PubSub.State.init;
  notify_queue = [];
  tasks = [];
  event_record_map = (codes "T1", (codes "10.0.0.1:1", pos 3) ∷ []) ∷ [];
}

abbrev disk : Store
disk = (codes "." ∷ codes "10.0.0.7:1" ∷ codes "10.0.0.8:1" ∷ codes "10.0.0.9:1" ∷ [], [])

abbrev move : Bytes → RedistributeRequest
move dest = record {
  subevent = codes "T1";
  src_addr = codes "10.0.0.1:1";
  dest_addr = dest;
  diff = pos 1;
}

abbrev told : List Bytes
told = codes "10.0.0.7:1" ∷ codes "10.0.0.8:1" ∷ []

-- Two of the three servers are told to join, and each gets a subscription.
abbrev relieved : Overload store
relieved = record {
  state = record overloaded {
    pubsub = record (tpst.PubSub.State.init) { sub_to_client = (codes "T1", []) ∷ [] };
    event_record_map =
        (
          codes "T1",
          (codes "10.0.0.1:1", pos 0)
              ∷ (codes "10.0.0.7:1", pos 0)
              ∷ (codes "10.0.0.8:1", pos 0)
              ∷ [],
        )
        ∷ [];
  };
  disk = (
    codes "." ∷ codes "10.0.0.9:1" ∷ [],
    codes "./multinodeip/cluster0/worker/10.0.0.8:1"
        ∷ codes "./multinodeip/cluster0/worker/10.0.0.7:1"
        ∷ [],
  );
  server_number = pos 2;
  updated = told;
  redistributed = move (codes "10.0.0.7:1") ∷ move (codes "10.0.0.8:1") ∷ [];
}

relieves : check_overload store ℤ (λ metas. metas) (pos 1) 1 cluster overloaded disk ≡ ok relieved
unfolding check_overload bytes_eq find ◌+ℤ◌ plan_sorted sub_metas find_or ◌-ℤ◌ put bytes_lt
    plan_loop plan_round touch
relieves = refl

check_overload-takes_example :
    ((e : Error) × (check_overload store ℤ (λ metas. metas) (pos 1) 1 cluster overloaded disk
        ≡ err e)
      × (e ≢ out_of_fuel))
    ⊎ ((o : Overload store) × (check_overload store ℤ
            (λ metas. metas)
            (pos 1)
            1
            cluster
            overloaded
            disk
          ≡ ok o)
        × Holds store o.disk (λ x. has x disk.0 && not (has x o.updated))
        × ((x : Bytes) → has x o.updated ≡ true → has x disk.0 ≡ true))
unfolding bytes_eq
check_overload-takes_example =
    check_overload-takes store cluster store-Apart store-Deletes disk.0 ℤ (λ metas. metas) (pos 1) 1
      overloaded disk store-Stays refl refl
