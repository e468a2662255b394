-- ===== src/Server/Overload/Pool.antt =====
-- The servers that `checkOverload` of src/server/workflowserver.cc takes out of the pool of
-- src/utils/groupManager/groupManager.cpp.
use mathlib.Core.Path.{subst}
use tpst.Prelude.{
  bytes_eq_refl, ℕ, ◌≡◌, refl, ◌∙◌, sym, ap, Option-cases, inl, inr, Bool, true, false, not, ◌&&◌,
  List, [], ◌∷◌, ◌++◌, Option, none, some, ℤ, Bytes, Result-cases, Error, err, out_of_fuel, ◌≢◌,
  ◌⊎◌, ok, ok-injective, >>=-eq-ok, zero, suc, if◌then◌else◌, arith,
}
use tpst.StdMap.{bytes_key}
use tpst.Coordinator.Double.{Double}
use tpst.Coordinator.Plan.{SubMeta, generate_plan_for_event}
use tpst.GroupManager.{
  FileSystem, free_pool_dir, below, worker_dir, proper, get_free_node_list, create_dir,
  create_dir_loop, addr_file, node_attach,
}
use tpst.GroupManager.Pool.{
  has, chosen, Holds, Deletes, IsName, get_free_node_list-IsName, has-chosen,
  get_free_node_list-chosen,
}
use tpst.Server.State.{ServerState}
use tpst.Server.Overload.Ends.{IsThere, Stays, check_overload-returns}
use tpst.Server.Overload.{Overload, attach_all, relieve_event, relieve_all, check_overload}

has-append :
    (x : Bytes) (xs ys : List Bytes) → has x (xs ++ ys) ≡ (if has x xs then true else has x ys)
has-append x [] ys = refl
has-append x (y ∷ xs) ys = ground (arith, has-append x xs ys)

module _ (fs : FileSystem) where
  -- What the attachment of a server to the cluster does to the pool: nothing.
  pub record Apart (dir : Bytes) : Type 0 where
    pub dirs :
        (d e : fs.Disk)
        → fs.make_dir (below dir worker_dir) d ≡ some e
        → fs.entries free_pool_dir e ≡ fs.entries free_pool_dir d
    pub files :
        (addr : Bytes) (d e : fs.Disk)
        → IsName fs addr
        → fs.make_file (below (below dir worker_dir) addr) d ≡ some e
        → fs.entries free_pool_dir e ≡ fs.entries free_pool_dir d

  module _ (dir : Bytes) (apart : Apart dir) where
    create_dir_loop-apart :
        (rounds : ℕ) (d e : fs.Disk)
        → create_dir_loop fs rounds (below dir worker_dir) d ≡ ok e
        → fs.entries free_pool_dir e ≡ fs.entries free_pool_dir d
    unfolding create_dir_loop
    create_dir_loop-apart zero d e h = cc
    create_dir_loop-apart (suc rounds) d e h =
        elim (Option-cases (fs.make_dir (below dir worker_dir) d)) [
          | inl failed ↦ ground (arith, h, failed, create_dir_loop-apart rounds d e)
          | inr (made, done) ↦
              let same : made ≡ e = ground (arith, h, done) in apart.dirs d e (done ∙ ap some same)
        ]

    create_dir-apart :
        (rounds : ℕ) (d e : fs.Disk)
        → create_dir fs rounds (below dir worker_dir) d ≡ ok e
        → fs.entries free_pool_dir e ≡ fs.entries free_pool_dir d
    unfolding create_dir
    create_dir-apart rounds d e h = ground (arith, h, create_dir_loop-apart rounds d e)

    make_file-apart :
        (addr : Bytes) (d e : fs.Disk) (attached : Bool) (result : Option fs.Disk)
        → IsName fs addr
        → fs.make_file (below (below dir worker_dir) addr) d ≡ result
        → ◌≡◌ {A = fs.Disk × Bool}
            (elim result [ none ↦ (d, false) | some made ↦ (made, true) ])
            (e, attached)
        → fs.entries free_pool_dir e ≡ fs.entries free_pool_dir d
    make_file-apart addr d e attached none named done h =
        ap {A = fs.Disk × Bool} (λ r. fs.entries free_pool_dir r.0) (sym h)
    make_file-apart addr d e attached (some made) named done h =
        apart.files addr d e named (done ∙ ap {A = fs.Disk × Bool} (λ r. some r.0) h)

    node_attach-apart :
        (rounds : ℕ) (addr : Bytes) (d e : fs.Disk) (attached : Bool)
        → IsName fs addr
        → node_attach fs rounds dir addr d ≡ ok (e, attached)
        → fs.entries free_pool_dir e ≡ fs.entries free_pool_dir d
    unfolding node_attach addr_file
    node_attach-apart rounds addr d e attached named h =
        let (d', created, written) =
          >>=-eq-ok (create_dir fs rounds (below dir worker_dir) d) _ h in
        let (file, fits, made) = >>=-eq-ok (addr_file fs (below dir worker_dir) addr) _ written in
        let whole : below (below dir worker_dir) addr ≡ file = ground (arith, fits) in
        make_file-apart addr d' e attached (fs.make_file file d') named
          (ap (λ path. fs.make_file path d') whole) (ok-injective made)
        ∙ create_dir-apart rounds d d' created

    attach_all-apart :
        (rounds : ℕ) (addrs : List Bytes) (d e : fs.Disk)
        → ((x : Bytes) → has x addrs ≡ true → IsName fs x)
        → attach_all fs rounds dir addrs d ≡ ok e
        → fs.entries free_pool_dir e ≡ fs.entries free_pool_dir d
    unfolding attach_all
    attach_all-apart rounds [] d e named h = ap (fs.entries free_pool_dir) (sym (ok-injective h))
    attach_all-apart rounds (addr ∷ addrs) d e named h =
        let ((d', attached), first, rest) = >>=-eq-ok (node_attach fs rounds dir addr d) _ h in
        attach_all-apart rounds addrs d' e (λ x there. named x (ground (arith, there))) rest
        ∙ node_attach-apart rounds addr d d' attached (named addr (rw (bytes_eq_refl addr) refl))
            first

    module _ (laws : Deletes fs) (names : List Bytes) where
      -- The servers that were told so far were in the pool, and it holds the others.
      abbrev IsTaken : fs.Disk → List Bytes → Type 0
      IsTaken d told =
          Holds fs d (λ x. has x names && not (has x told))
          × ((x : Bytes) → has x told ≡ true → has x names ≡ true)

      IsTaken-more :
          (need : ℤ) (told addrs : List Bytes) (d d1 d2 : fs.Disk)
          → IsTaken d told
          → get_free_node_list fs need d ≡ ok (addrs, d1)
          → fs.entries free_pool_dir d2 ≡ fs.entries free_pool_dir d1
          → IsTaken d2 (told ++ addrs)
      IsTaken-more need told addrs d d1 d2 ((left, there, exactly), were) got kept =
          let (d', freed, (left', there', exactly')) =
            get_free_node_list-chosen fs laws need d left there in
          let was_left : (x : Bytes)
              → has x (chosen need (proper left)) ≡ true
              → has x left ≡ true =
            λ x taken. (has-chosen x need left taken).0 in
          let result = ok-injective (sym freed ∙ got) in
          let same : chosen need (proper left) ≡ addrs =
            ap {A = List Bytes × fs.Disk} (λ r. r.0) result in
          let disk : d' ≡ d1 = ap {A = List Bytes × fs.Disk} (λ r. r.1) result in
          (
            (
              left',
              kept ∙ ap (fs.entries free_pool_dir) (sym disk) ∙ there',
              λ x. ground (arith, exactly' x, exactly x, has-append x told addrs, ap (has x) same),
            ),
            λ x now. ground (
              arith,
              now,
              were x,
              has-append x told addrs,
              ap (has x) same,
              exactly x,
              was_left x,
            ),
          )

      module _ {ℓ} (W : Type ℓ) ⦃w : Double W⦄ (sort : List SubMeta → List SubMeta)
          (threshold : ℤ) where
        relieve_event-IsTaken :
            (rounds : ℕ) (event : Bytes) (o o' : Overload fs)
            → relieve_event fs W sort threshold rounds dir event o ≡ ok o'
            → IsTaken o.disk o.updated
            → IsTaken o'.disk o'.updated
        unfolding relieve_event
        relieve_event-IsTaken rounds event o o' h before =
            let ((addrs, d1), got, h1) = >>=-eq-ok (get_free_node_list fs _ o.disk) _ h in
            let ((plans, records), planned, h2) =
              >>=-eq-ok (generate_plan_for_event W sort event _) _ h1 in
            let (d2, attached, h3) = >>=-eq-ok (attach_all fs rounds dir addrs d1) _ h2 in
            let done = ok-injective h3 in
            subst (λ r. IsTaken r.disk r.updated) done
              (IsTaken-more _ o.updated addrs o.disk d1 d2 before got (
                attach_all-apart rounds addrs d1 d2
                  (get_free_node_list-IsName fs _ o.disk d1 addrs got) attached))

        relieve_all-IsTaken :
            (rounds : ℕ) (events : List Bytes) (o o' : Overload fs)
            → relieve_all fs W sort threshold rounds dir events o ≡ ok o'
            → IsTaken o.disk o.updated
            → IsTaken o'.disk o'.updated
        unfolding relieve_all
        relieve_all-IsTaken rounds [] o o' h t =
            subst (λ r. IsTaken r.disk r.updated) (ok-injective h) t
        relieve_all-IsTaken rounds (event ∷ events) o o' h t =
            let (o1, first, rest) =
              >>=-eq-ok (relieve_event fs W sort threshold rounds dir event o) _ h in
            relieve_all-IsTaken rounds events o1 o' rest
              (relieve_event-IsTaken rounds event o o1 first t)

        check_overload-IsTaken :
            (rounds : ℕ) (s : ServerState) (d : fs.Disk) (o : Overload fs)
            → fs.entries free_pool_dir d ≡ some names
            → check_overload fs W sort threshold rounds dir s d ≡ ok o
            → IsTaken o.disk o.updated
        unfolding check_overload
        check_overload-IsTaken rounds s d o there h =
            relieve_all-IsTaken rounds _ _ o h ((names, there, λ x. ground arith), λ x never. cc)

        -- Where the pool can be read and its files can be removed, the directory for the workers is
        -- there, and files that come into this directory leave the pool alone: the loop of `createDir`
        -- ends, and unless the check fails, the servers that it has told to join were in the pool,
        -- and the pool is left with its other entries.
        pub check_overload-takes :
            (rounds : ℕ) (s : ServerState) (d : fs.Disk)
            → Stays fs dir
            → IsThere fs dir d
            → fs.entries free_pool_dir d ≡ some names
            → ((e : Error) × (check_overload fs W sort threshold rounds dir s d ≡ err e)
                × (e ≢ out_of_fuel))
              ⊎ ((o : Overload fs) × (check_overload fs W sort threshold rounds dir s d ≡ ok o)
                  × Holds fs o.disk (λ x. has x names && not (has x o.updated))
                  × ((x : Bytes) → has x o.updated ≡ true → has x names ≡ true))
        check_overload-takes rounds s d stays first there =
            elim (Result-cases (check_overload fs W sort threshold rounds dir s d)) [
              | inl (e, failed) ↦ inl (
                e,
                failed,
                λ same.
                    check_overload-returns fs dir stays rounds W sort threshold s d first
                      (failed ∙ ap err same),
              )
              | inr (o, done) ↦
                  let (pool, were) = check_overload-IsTaken rounds s d o there done in
                  inr (o, done, pool, were)
            ]
