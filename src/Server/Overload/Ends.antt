-- ===== src/Server/Overload/Ends.antt =====
-- The loop of `createDir`, as `checkOverload` of src/server/workflowserver.cc runs it.
use mathlib.Core.Path.{subst}
use tpst.Prelude.{
  bytes_eq_refl, sym, ℕ, ◌≡◌, ◌≢◌, ◌∙◌, ap, refl, true, false, Bool, List, [], ◌∷◌, Option, none,
  some, ℤ, Bytes, Result, err, ok, ◌>>=◌, ok-injective, >>=-eq-ok, ok-returns, out_of_fuel,
  Option-cases, inl, inr, arith,
}
use tpst.StdMap.{bytes_key}
use tpst.Coordinator.Double.{Double}
use tpst.Coordinator.Plan.{SubMeta, generate_plan_for_event}
use tpst.Coordinator.Plan.Ends.{generate_plan_for_event-returns}
use tpst.GroupManager.{
  FileSystem, free_pool_dir, below, worker_dir, proper, take_free, delete_free, get_free_node_list,
  create_dir, addr_file, node_attach,
}
use tpst.GroupManager.Pool.{has, IsName, get_free_node_list-IsName}
use tpst.Server.State.{ServerState}
use tpst.Server.Overload.{Overload, attach_all, relieve_event, relieve_all, check_overload}

after-returns {ℓ ℓ'} :
    {A : Type ℓ} {B : Type ℓ'} (x : Result A) (f : A → Result B)
    → x ≢ err out_of_fuel
    → ((v : A) → x ≡ ok v → f v ≢ err out_of_fuel)
    → (x >>= f) ≢ err out_of_fuel
after-returns (err e) f first next h = first (ap err (ground (arith, h)))
after-returns (ok v) f first next h = next v refl h

module _ (fs : FileSystem) where
  -- The directory for the workers is there.
  abbrev pub IsThere : Bytes → fs.Disk → Type 0
  IsThere dir d = fs.readable (below dir worker_dir) d ≡ true

  -- A new file in the directory for the workers, or one less in the pool, leaves that directory there.
  pub record Stays (dir : Bytes) : Type 0 where
    pub files :
        (addr : Bytes) (d e : fs.Disk)
        → fs.make_file (below (below dir worker_dir) addr) d ≡ some e
        → IsThere dir d
        → IsThere dir e
    pub deletes :
        (name : Bytes) (d e : fs.Disk)
        → IsName fs name
        → fs.delete (below free_pool_dir name) d ≡ some e
        → IsThere dir d
        → IsThere dir e

  addr_file-returns : (dir addr : Bytes) → addr_file fs dir addr ≢ err out_of_fuel
  unfolding addr_file
  addr_file-returns dir addr h = ground (arith, h)

  module _ (dir : Bytes) (stays : Stays dir) (rounds : ℕ) where
    delete_free-IsThere :
        (names : List Bytes) (d : fs.Disk)
        → ((x : Bytes) → has x names ≡ true → IsName fs x)
        → IsThere dir d
        → IsThere dir (delete_free fs names d)
    unfolding delete_free
    delete_free-IsThere [] d named h = h
    delete_free-IsThere (name ∷ names) d named h =
        let rest : (x : Bytes) → has x names ≡ true → IsName fs x =
          λ x there. named x (ground (arith, there)) in
        elim (Option-cases (fs.delete (below free_pool_dir name) d)) [
          | inl failed ↦ rw (failed, delete_free) (delete_free-IsThere names d rest h)
          | inr (e, done) ↦
              rw (done, delete_free)
                (delete_free-IsThere names e rest
                  (stays.deletes name d e (named name (rw (bytes_eq_refl name) refl)) done h))
        ]

    get_free_node_list-IsThere :
        (need : ℤ) (d e : fs.Disk) (addrs : List Bytes)
        → get_free_node_list fs need d ≡ ok (addrs, e)
        → IsThere dir d
        → IsThere dir e
    unfolding get_free_node_list
    get_free_node_list-IsThere need d e addrs h there =
        elim (Option-cases (fs.entries free_pool_dir d)) [
          | inl missing ↦ ground (arith, h, missing)
          | inr (names, listed) ↦
              let taken : List Bytes = take_free 0 need (proper names) in
              let which : addrs ≡ taken =
                ap {A = List Bytes × fs.Disk} (λ r. r.0)
                  (ok-injective (sym (rw (listed, get_free_node_list) at h))) in
              let same : delete_free fs taken d ≡ e =
                ap {A = List Bytes × fs.Disk} (λ r. r.1)
                  (ok-injective (rw (listed, get_free_node_list) at h)) in
              subst (IsThere dir) same (
                delete_free-IsThere taken d
                  (λ x held.
                    get_free_node_list-IsName fs need d e addrs h x (ap (has x) which ∙ held))
                  there)
        ]

    get_free_node_list-returns :
        (need : ℤ) (d : fs.Disk) → get_free_node_list fs need d ≢ err out_of_fuel
    unfolding get_free_node_list
    get_free_node_list-returns need d h = elim (Option-cases (fs.entries free_pool_dir d)) [
      | inl missing ↦ ground (arith, h, missing)
      | inr (names, there) ↦ ground (arith, h, there)
    ]

    create_dir-IsThere :
        (d : fs.Disk) → IsThere dir d → create_dir fs rounds (below dir worker_dir) d ≡ ok d
    unfolding create_dir
    create_dir-IsThere d there = rw there refl

    make_file-IsThere :
        (addr : Bytes) (d e : fs.Disk) (attached : Bool) (result : Option fs.Disk)
        → fs.make_file (below (below dir worker_dir) addr) d ≡ result
        → ◌≡◌ {A = fs.Disk × Bool}
            (elim result [ none ↦ (d, false) | some made ↦ (made, true) ])
            (e, attached)
        → IsThere dir d
        → IsThere dir e
    make_file-IsThere addr d e attached none done h there =
        subst (IsThere dir) (ap {A = fs.Disk × Bool} (λ r. r.0) h) there
    make_file-IsThere addr d e attached (some made) done h there =
        stays.files addr d e (done ∙ ap {A = fs.Disk × Bool} (λ r. some r.0) h) there

    node_attach-IsThere :
        (addr : Bytes) (d e : fs.Disk) (attached : Bool)
        → node_attach fs rounds dir addr d ≡ ok (e, attached)
        → IsThere dir d
        → IsThere dir e
    unfolding node_attach addr_file
    node_attach-IsThere addr d e attached h there =
        let (file, fits, made) =
          >>=-eq-ok (addr_file fs (below dir worker_dir) addr) _
            (rw (create_dir-IsThere d there) at h) in
        let whole : below (below dir worker_dir) addr ≡ file = ground (arith, fits) in
        make_file-IsThere addr d e attached (fs.make_file file d)
          (ap (λ path. fs.make_file path d) whole) (ok-injective made) there

    node_attach-returns :
        (addr : Bytes) (d : fs.Disk)
        → IsThere dir d
        → node_attach fs rounds dir addr d ≢ err out_of_fuel
    unfolding node_attach addr_file
    node_attach-returns addr d there =
        let created : create_dir fs rounds (below dir worker_dir) d ≢ err out_of_fuel =
          λ h. ground (arith, h, create_dir-IsThere d there) in
        after-returns _ _ created (λ e made.
          after-returns _ _ (addr_file-returns (below dir worker_dir) addr)
            (λ file fits. ok-returns _))

    attach_all-returns :
        (addrs : List Bytes) (d : fs.Disk)
        → IsThere dir d
        → (attach_all fs rounds dir addrs d ≢ err out_of_fuel)
          × ((e : fs.Disk) → attach_all fs rounds dir addrs d ≡ ok e → IsThere dir e)
    unfolding attach_all
    attach_all-returns [] d there =
        (ok-returns d, λ e h. subst (IsThere dir) (ok-injective h) there)
    attach_all-returns (addr ∷ addrs) d there = (
      after-returns _ _ (node_attach-returns addr d there) (λ (r : fs.Disk × Bool) done.
          (attach_all-returns addrs r.0 (node_attach-IsThere addr d r.0 r.1 done there)).0),
      λ e h.
          let (r, first, rest) = >>=-eq-ok (node_attach fs rounds dir addr d) _ h in
          (attach_all-returns addrs r.0 (node_attach-IsThere addr d r.0 r.1 first there)).1 e rest,
    )

    module _ {ℓ} (W : Type ℓ) ⦃w : Double W⦄ (sort : List SubMeta → List SubMeta)
        (threshold : ℤ) where
      relieve_event-returns :
          (event : Bytes) (o : Overload fs)
          → IsThere dir o.disk
          → (relieve_event fs W sort threshold rounds dir event o ≢ err out_of_fuel)
            × ((o' : Overload fs)
                → relieve_event fs W sort threshold rounds dir event o ≡ ok o'
                → IsThere dir o'.disk)
      unfolding relieve_event
      relieve_event-returns event o there = (
        after-returns _ _ (get_free_node_list-returns _ o.disk)
            (λ (got : List Bytes × fs.Disk) free.
              after-returns _ _ (generate_plan_for_event-returns W sort event _) (λ planned plans.
                after-returns _ _
                  (attach_all-returns got.0 got.1
                    (get_free_node_list-IsThere _ o.disk got.1 got.0 free there)).0
                  (λ d attached. ok-returns _))),
        λ o' h.
            let ((addrs, d1), got, h1) = >>=-eq-ok (get_free_node_list fs _ o.disk) _ h in
            let ((plans, records), planned, h2) =
              >>=-eq-ok (generate_plan_for_event W sort event _) _ h1 in
            let (d2, attached, h3) = >>=-eq-ok (attach_all fs rounds dir addrs d1) _ h2 in
            subst (λ r. IsThere dir r.disk) (ok-injective h3)
              ((attach_all-returns addrs d1
                  (get_free_node_list-IsThere _ o.disk d1 addrs got there)).1
                d2 attached),
      )

      relieve_all-returns :
          (events : List Bytes) (o : Overload fs)
          → IsThere dir o.disk
          → relieve_all fs W sort threshold rounds dir events o ≢ err out_of_fuel
      unfolding relieve_all
      relieve_all-returns [] o there = ok-returns o
      relieve_all-returns (event ∷ events) o there =
          let (returns, kept) = relieve_event-returns event o there in
          after-returns _ _ returns (λ o' done. relieve_all-returns events o' (kept o' done))

      -- Where the directory for the workers is there, `mkdir` is not tried.
      pub check_overload-returns :
          (s : ServerState) (d : fs.Disk)
          → IsThere dir d
          → check_overload fs W sort threshold rounds dir s d ≢ err out_of_fuel
      unfolding check_overload
      check_overload-returns s d there = relieve_all-returns _ _ there
