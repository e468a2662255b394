-- ===== src/GetIp/Registry.antt =====
-- The addresses that the servers leave in the cluster directories and the clients load,
-- src/utils/getip/getip.cpp.
use tpst.Prelude.{
  ℕ, suc, ◌/◌, ◌%◌, ◌<◌, ◌≡◌, refl, ◌∙◌, ap, ◌&&◌, true, false, List, [], ◌∷◌, ◌++◌, some, Bytes,
  codes, bytes_eq, bytes_eq_iff, ok, err, Error, exit_failure, out_of_fuel, ok-injective,
  Result-cases, Option-cases, ◌⊎◌, none, zero, ◌>>=◌, length, lt→ltb, ◌==◌, if◌then◌else◌, inl, inr,
  arith,
}
use tpst.Utils.StrParse.RoundTrip.{Lacks}
use tpst.GroupManager.{
  FileSystem, multinodeip, below, proper, create_dir, create_dir_loop, addr_file,
}
use tpst.GroupManager.Pool.{has}
use tpst.GetIp.{
  get_own_cluster_dir, get_client_cluster_dir, load_multi_node_by_cluster_dir, load_multi_node,
  record_multi_node,
}

-- The number of clusters that a quotient stands for.
abbrev pub clusters : ℕ → ℕ
clusters quotient = if quotient == 0 then 1 else quotient

abbrev pub addr : Bytes → Bytes → Bytes
addr ip port = ip ++ b':' ∷ port

addr-first : (ip port : Bytes) → bytes_eq (addr ip port) (codes ".") ≡ false
unfolding bytes_eq
addr-first [] port = refl
addr-first (c ∷ []) port = ground arith
addr-first (c ∷ d ∷ ip) port = ground arith

addr-second : (ip port : Bytes) → bytes_eq (addr ip port) (codes "..") ≡ false
unfolding bytes_eq
addr-second [] port = refl
addr-second (c ∷ []) port = ground arith
addr-second (c ∷ d ∷ []) port = ground arith
addr-second (c ∷ d ∷ e ∷ ip) port = ground arith

proper-has :
    (x : Bytes) (names : List Bytes)
    → bytes_eq x (codes ".") ≡ false
    → bytes_eq x (codes "..") ≡ false
    → has x names ≡ true
    → has x (proper names) ≡ true
unfolding proper
proper-has x [] first second h = cc
proper-has x (name ∷ names) first second h = ground (
  arith,
  proper-has x names first second,
  bytes_eq_iff x name,
  bytes_eq_iff name (codes "."),
  bytes_eq_iff name (codes ".."),
)

own_cluster_dir :
    (component_num p id client_id quotient : ℕ)
    → quotient ≡ component_num / suc p
    → client_id % clusters quotient ≡ id % clusters quotient
    → get_own_cluster_dir component_num (suc p) id ≡ ok (get_client_cluster_dir quotient client_id)
unfolding get_own_cluster_dir get_client_cluster_dir
own_cluster_dir component_num p id client_id quotient known same = rw (← known) (rw same refl)

module _ (fs : FileSystem) where
  -- `fopen` with "w" that succeeds leaves an entry in the directory, which `readdir` returns.
  abbrev pub Enters : Bytes → Type 0
  Enters dir =
      (d e : fs.Disk) (name : Bytes) (names : List Bytes)
      → Lacks b'/' name
      → bytes_eq name (codes ".") ≡ false
      → bytes_eq name (codes "..") ≡ false
      → fs.make_file (below dir name) d ≡ some e
      → fs.entries dir e ≡ some names
      → has name names ≡ true

  create_dir_loop-error :
      (rounds : ℕ) (dir : Bytes) (d : fs.Disk) (e : Error)
      → create_dir_loop fs rounds dir d ≡ err e
      → e ≡ out_of_fuel
  unfolding create_dir_loop
  create_dir_loop-error zero dir d e h = ground (arith, h)
  create_dir_loop-error (suc rounds) dir d e h = elim (Option-cases (fs.make_dir dir d)) [
    | inl failed ↦ ground (arith, h, failed, create_dir_loop-error rounds dir d e)
    | inr (made, done) ↦ ground (arith, h, done)
  ]

  -- Without enough rounds the path could not be read.
  create_dir-error :
      (rounds : ℕ) (dir : Bytes) (d : fs.Disk) (e : Error)
      → create_dir fs rounds dir d ≡ err e
      → (e ≡ out_of_fuel) × (fs.readable dir d ≡ false)
  unfolding create_dir
  create_dir-error rounds dir d e h = ground (arith, h, create_dir_loop-error rounds dir d e)

  create_dir-same :
      (rounds : ℕ) (dir : Bytes) (d e : fs.Disk)
      → create_dir fs rounds dir d ≡ ok e
      → fs.readable dir d ≡ true
      → d ≡ e
  unfolding create_dir
  create_dir-same rounds dir d e h there = ok-injective (rw there at h)

  -- What a client finds in the directory with the file.
  abbrev pub Finds : ℕ → ℕ → ℕ → ℕ → Bytes → fs.Disk → Type 0
  Finds n m quotient client_id name e =
      (load_multi_node fs (codes "client") n m quotient client_id e ≡ err exit_failure)
      ⊎ ((addrs : List Bytes) × (load_multi_node fs (codes "client") n m quotient client_id e
            ≡ ok addrs)
          × (has name addrs ≡ true))

  load_multi_node-client :
      (n m quotient id : ℕ) (d : fs.Disk)
      → load_multi_node fs (codes "client") n m quotient id d
        ≡ load_multi_node_by_cluster_dir fs (get_client_cluster_dir quotient id) d
  unfolding load_multi_node bytes_eq
  load_multi_node-client n m quotient id d = refl

  load_multi_node-Finds :
      (n m quotient client_id : ℕ) (ip port : Bytes) (d e : fs.Disk)
      → Enters (get_client_cluster_dir quotient client_id)
      → Lacks b'/' (addr ip port)
      → fs.make_file (below (get_client_cluster_dir quotient client_id) (addr ip port)) d ≡ some e
      → Finds n m quotient client_id (addr ip port) e
  unfolding load_multi_node_by_cluster_dir
  load_multi_node-Finds n m quotient client_id ip port d e enters lacks written =
      let client = load_multi_node-client n m quotient client_id e in
      elim (Option-cases (fs.entries (get_client_cluster_dir quotient client_id) e)) [
        | inl closed ↦ inl (client ∙ rw (closed, load_multi_node_by_cluster_dir) refl)
        | inr (names, listed) ↦ inr (
          proper names,
          client ∙ rw (listed, load_multi_node_by_cluster_dir) refl,
          proper-has (addr ip port) names (addr-first ip port) (addr-second ip port) (
              enters d e (addr ip port) names lacks (addr-first ip port) (addr-second ip port)
                written listed),
        )
      ]

  record_multi_node-writes :
      (rounds : ℕ) (ip port dir : Bytes) (component_num num_per_cluster id : ℕ) (ipstr : Bytes)
      (d d' d'' : fs.Disk)
      → get_own_cluster_dir component_num num_per_cluster id ≡ ok dir
      → create_dir fs rounds multinodeip d ≡ ok d'
      → create_dir fs rounds dir d' ≡ ok d''
      → length (below dir (addr ip port)) < 100
      → record_multi_node fs rounds ip port component_num num_per_cluster id ipstr d
        ≡ ok (elim (fs.make_file (below dir (addr ip port)) d'') [
          | none ↦ (d'', ipstr)
          | some e ↦ (e, ip)
        ])
  unfolding record_multi_node addr_file
  record_multi_node-writes rounds ip port dir component_num num_per_cluster id ipstr d d' d'' own
        made made' short =
      rw (own, made, made', lt→ltb (length (below dir (addr ip port))) 100 short) refl

  record_multi_node-loops :
      (rounds : ℕ) (ip port dir : Bytes) (component_num num_per_cluster id : ℕ) (ipstr : Bytes)
      (d : fs.Disk)
      → get_own_cluster_dir component_num num_per_cluster id ≡ ok dir
      → (create_dir fs rounds multinodeip d >>= create_dir fs rounds dir) ≡ err out_of_fuel
      → record_multi_node fs rounds ip port component_num num_per_cluster id ipstr d
        ≡ err out_of_fuel
  unfolding record_multi_node
  record_multi_node-loops rounds ip port dir component_num num_per_cluster id ipstr d own h =
      elim (Result-cases (create_dir fs rounds multinodeip d)) [
        | inl (e, failed) ↦
            let same : e ≡ out_of_fuel = ground (arith, h, failed) in rw (own, failed, same) refl
        | inr (d', made) ↦
            let inner : create_dir fs rounds dir d' ≡ err out_of_fuel = (rw made at h) in
            rw (own, made, inner) refl
      ]

  -- A server that registers below ./multinodeip, for a client whose id is the same modulo the number
  -- of clusters; the client's SERVERCLUSTERNUM is the servers' GETIPCOMPONENTNUM / GETIPNUMPERCLUSTER,
  -- the latter not 0, the path of the file is shorter than 100 bytes, the address has no `/`, and
  -- `fopen` that succeeds leaves an entry. Either a loop of `mkdir` goes on, which it does not where
  -- both directories can be read at first; or `fopen` has failed and the address is not taken; or the
  -- server is registered, and the client, unless the directory cannot be opened, loads a list that has
  -- its address.
  pub record_multi_node-loaded :
      (rounds : ℕ) (ip port : Bytes) (component_num p id client_id quotient : ℕ) (ipstr : Bytes)
      (d : fs.Disk)
      → Enters (get_client_cluster_dir quotient client_id)
      → quotient ≡ component_num / suc p
      → client_id % clusters quotient ≡ id % clusters quotient
      → Lacks b'/' (addr ip port)
      → length (below (get_client_cluster_dir quotient client_id) (addr ip port)) < 100
      → (n m : ℕ)
      → ((record_multi_node fs rounds ip port component_num (suc p) id ipstr d ≡ err out_of_fuel)
          × (fs.readable multinodeip d && fs.readable (get_client_cluster_dir quotient client_id) d
              ≡ false))
        ⊎ (((e : fs.Disk) × (record_multi_node fs rounds ip port component_num (suc p) id ipstr d
                ≡ ok (e, ipstr))
              × (fs.make_file (below (get_client_cluster_dir quotient client_id) (addr ip port)) e
                  ≡ none))
            ⊎ ((e : fs.Disk) × (record_multi_node fs rounds ip port component_num (suc p) id ipstr d
                  ≡ ok (e, ip))
                × Finds n m quotient client_id (addr ip port) e))
  record_multi_node-loaded rounds ip port component_num p id client_id quotient ipstr d enters known
        same lacks short n m =
      let dir : Bytes = get_client_cluster_dir quotient client_id in
      let own = own_cluster_dir component_num p id client_id quotient known same in
      elim (Result-cases (create_dir fs rounds multinodeip d)) [
        | inl (e, failed) ↦
            let (fuel, closed) = create_dir-error rounds multinodeip d e failed in
            inl (
              record_multi_node-loops rounds ip port dir component_num (suc p) id ipstr d own
                  (rw (failed, fuel) refl),
              rw closed refl,
            )
        | inr (d', made) ↦ elim (Result-cases (create_dir fs rounds dir d')) [
          | inl (e, failed) ↦
              let (fuel, closed) = create_dir-error rounds dir d' e failed in
              let kept : fs.readable multinodeip d ≡ true → fs.readable dir d ≡ fs.readable dir d' =
                λ there.
                  ap (fs.readable dir) (create_dir-same rounds multinodeip d d' made there) in
              inl (
                record_multi_node-loops rounds ip port dir component_num (suc p) id ipstr d own
                    (rw (made, failed, fuel) refl),
                ground (arith, closed, kept),
              )
          | inr (d'', made') ↦
              let wrote =
                record_multi_node-writes rounds ip port dir component_num (suc p) id ipstr d d' d''
                  own made made' short in
              elim (Option-cases (fs.make_file (below dir (addr ip port)) d'')) [
                | inl failed ↦ inr (inl (d'', wrote ∙ rw failed refl, failed))
                | inr (e, done) ↦ inr (
                    inr (
                      e,
                      wrote ∙ rw done refl,
                      load_multi_node-Finds n m quotient client_id ip port d'' e enters lacks done,
                    ))
              ]
        ]
      ]
