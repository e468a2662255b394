-- ===== src/PublishClient/Listed.antt =====
-- Whom the first lookup of a cluster finds, src/publishclient/pubsubclient.cc.
use tpst.Prelude.{
  ℕ, suc, ◌+◌, ◌%◌, ◌≤◌, ◌<◌, ◌≡◌, refl, ◌∙◌, ap, Bool, true, false, List, [], ◌∷◌, ◌++◌, none,
  some, Bytes, bytes_eq, bytes_lt, bytes_eq_refl, ok, All, length, ◌==◌, if◌then◌else◌, Bool-cases,
  inl, inr, arith,
}
use mathlib.Core.List.{append_assoc}
use mathlib.Core.Path.{subst}
use tpst.StdMap.{bytes_key, Map, find, find_or, put, touch, size}
use tpst.StdMap.Laws.{find-put, find_or-put}
use tpst.GroupManager.{
  FileSystem, below, worker_dir, coordinator_dir, load_addr_in_dir, update_worker_addr_map,
  get_cluster_dir_from_event_msg,
}
use tpst.PublishClient.{
  Clients, add_worker_clients, update_worker_clients, update_coordinator_clients, client_at,
  get_server_id_from_addr, with_cluster, init_clients, get_client_from_event,
}

abbrev pub among : Bytes → List Bytes → Bool
among x [] = false
among x (y ∷ ys) = if bytes_eq x y then true else among x ys

-- Each client of the map is one of the addresses.
abbrev OnlyOf : List Bytes → Map Bytes Bytes → Type 0
OnlyOf listed [] = Unit
OnlyOf listed ((addr, client) ∷ m) = (among client listed ≡ true) × OnlyOf listed m

put-OnlyOf :
    (listed : List Bytes) (addr client : Bytes) (m : Map Bytes Bytes)
    → among client listed ≡ true
    → OnlyOf listed m
    → OnlyOf listed (put addr client m)
unfolding put
put-OnlyOf listed addr client [] h only = (h, tt)
put-OnlyOf listed addr client ((a, c) ∷ m) h only = elim (Bool-cases (bytes_eq a addr)) [
  | inl same ↦ rw same (h, only.1)
  | inr other ↦ elim (Bool-cases (bytes_lt addr a)) [
    | inl first ↦ rw (other, first) (h, only)
    | inr later ↦ rw (other, later) (only.0, put-OnlyOf listed addr client m h only.1)
  ]
]

put-ne-nil : (addr client : Bytes) (m : Map Bytes Bytes) → 0 < size (put addr client m)
unfolding put
put-ne-nil addr client [] = omega arith
put-ne-nil addr client ((a, c) ∷ m) = ground (arith, put-ne-nil addr client m)

client_at-OnlyOf :
    (listed : List Bytes) (counter id : ℕ) (m : Map Bytes Bytes)
    → OnlyOf listed m
    → counter ≤ id
    → id < counter + length m
    → (addr : Bytes) × (client_at counter id m ≡ some addr) × (among addr listed ≡ true)
unfolding client_at
client_at-OnlyOf listed counter id [] only low high = absurd (omega (arith, low, high))
client_at-OnlyOf listed counter id ((a, c) ∷ m) only low high = elim (Bool-cases (counter == id)) [
  | inl here ↦ (c, rw here refl, only.0)
  | inr later ↦
      let (addr, found, member) =
        client_at-OnlyOf listed (suc counter) id m only.1 (ground (arith, later, low))
          (omega (arith, high)) in
      (addr, rw later found, member)
]

module _ (dir : Bytes) where
  -- The address is no directory that has clients.
  abbrev pub IsNew : Map Bytes (Map Bytes Bytes) → Bytes → Type 0
  IsNew m addr = (find addr m ≡ none) × (bytes_eq dir addr ≡ false)

  IsNew-put :
      (v : Map Bytes Bytes) (m : Map Bytes (Map Bytes Bytes)) (addrs : List Bytes)
      → All (IsNew m) addrs
      → All (IsNew (put dir v m)) addrs
  IsNew-put v m [] h = tt
  IsNew-put v m (addr ∷ addrs) h =
      ((find-put addr dir v m ∙ rw h.0.1 h.0.0, h.0.1), IsNew-put v m addrs h.1)

  -- What the loop makes of the clients of the directory.
  add_worker_clients-OnlyOf :
      (listed addrs : List Bytes) (m : Map Bytes (Map Bytes Bytes))
      → All (IsNew m) addrs
      → All (λ a. among a listed ≡ true) addrs
      → OnlyOf listed (find_or [] dir m)
      → OnlyOf listed (find_or [] dir (add_worker_clients dir addrs m))
        × (0 < length addrs + size (find_or [] dir m)
            → 0 < size (find_or [] dir (add_worker_clients dir addrs m)))
  unfolding add_worker_clients
  add_worker_clients-OnlyOf listed [] m fresh within only = (only, λ h. omega (arith, h))
  add_worker_clients-OnlyOf listed (addr ∷ addrs) m fresh within only =
      let here : Map Bytes Bytes = put addr addr (find_or [] dir m) in
      let read : find_or [] dir (put dir here m) ≡ here =
        find_or-put [] dir dir here m ∙ rw (bytes_eq_refl dir) refl in
      let (rest, full) =
        add_worker_clients-OnlyOf listed addrs (put dir here m) (IsNew-put here m addrs fresh.1)
          within.1 (rw read (put-OnlyOf listed addr addr (find_or [] dir m) within.0 only)) in
      rw (fresh.0.0)
        (rest, λ h. full (rw read (omega (arith, put-ne-nil addr addr (find_or [] dir m)))))

among-append : (x : Bytes) (xs ys : List Bytes) → among x ys ≡ true → among x (xs ++ ys) ≡ true
among-append x [] ys h = h
among-append x (y ∷ xs) ys h = ground (arith, among-append x xs ys)

each_among : (before xs : List Bytes) → All (λ a. among a (before ++ xs) ≡ true) xs
each_among before [] = tt
each_among before (x ∷ xs) = (
  among-append x before (x ∷ xs) (rw (bytes_eq_refl x) refl),
  subst (λ all. All (λ a. among a all ≡ true) xs) (append_assoc before (x ∷ []) xs)
      (each_among (before ++ x ∷ []) xs),
)

-- The addresses below a cluster: its workers, then its coordinators.
abbrev pub addresses : (fs : FileSystem) → Bytes → fs.Disk → List Bytes
addresses fs dir d =
    load_addr_in_dir fs (below dir worker_dir) d
    ++ load_addr_in_dir fs (below dir coordinator_dir) d

module _ (fs : FileSystem) (dir : Bytes) (d : fs.Disk) (s : Clients)
    (first : find dir s.workers ≡ none) (unloaded : find dir s.loaded ≡ none) where
  with_cluster-workers :
      (with_cluster fs dir d s).workers ≡ add_worker_clients dir (addresses fs dir d) s.workers
  unfolding with_cluster init_clients update_coordinator_clients update_worker_clients
      update_worker_addr_map
  with_cluster-workers =
      let read : find_or [] dir (put dir (addresses fs dir d) s.addrs) ≡ addresses fs dir d =
        find_or-put [] dir dir (addresses fs dir d) s.addrs ∙ rw (bytes_eq_refl dir) refl in
      rw (first, with_cluster)
        (rw (unloaded, update_worker_addr_map)
          (ap (λ addrs. add_worker_clients dir addrs s.workers) read))

  -- The first lookup of the cluster of an event, where the directories of the cluster hold an address
  -- and no address that is the name of a directory with clients, returns a client of one of the
  -- addresses, whatever `rand` returns.
  pub get_client_from_event-addresses :
      (event : Bytes) (random group_number : ℕ)
      → get_cluster_dir_from_event_msg event group_number ≡ ok dir
      → All (IsNew dir s.workers) (addresses fs dir d)
      → 0 < length (addresses fs dir d)
      → (addr : Bytes) × (s' : Clients) × (get_client_from_event fs event random group_number d s
          ≡ ok (some addr, s'))
        × (among addr (addresses fs dir d) ≡ true)
  unfolding get_client_from_event get_server_id_from_addr
  get_client_from_event-addresses event random group_number parsed fresh some_addr =
      let s1 : Clients = with_cluster fs dir d s in
      let clients : Map Bytes Bytes = find_or [] dir s1.workers in
      let empty : find_or [] dir s.workers ≡ [] = unfold find_or in rw (first, find_or) refl in
      let (only, full) =
        add_worker_clients-OnlyOf dir (addresses fs dir d) (addresses fs dir d) s.workers fresh
          (each_among [] (addresses fs dir d)) (rw empty tt) in
      let only' : OnlyOf (addresses fs dir d) clients = rw with_cluster-workers only in
      let full' : 0 < size clients = rw with_cluster-workers (full (omega (arith, some_addr))) in
      let (addr, found, member) =
        client_at-OnlyOf (addresses fs dir d) 0 (random % size clients) clients only' (omega arith)
          (ground (arith, full')) in
      let occupied : (size clients == 0) ≡ false = ground (arith, full') in
      (
        addr,
        record s1 { workers = touch [] dir s1.workers },
        rw parsed (rw occupied (rw found refl)),
        member,
      )
