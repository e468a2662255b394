-- ===== src/Server/Network/Same.antt =====
-- A publication by name at servers of src/server/workflowserver.cc whose tables are well-formed: no
-- handler fails, so that the request spreads as their roles and directories say.
use tpst.Prelude.{
  ℕ, zero, suc, ◌≡◌, refl, sym, ◌∙◌, ap, Bool, true, false, List, [], ◌∷◌, ◌++◌, Option, none, some,
  Bytes, codes, bytes_eq, bytes_eq_iff, ok, >>=-eq-ok, ok-injective, All, All-append, if◌then◌else◌,
  Bool-cases, Option-cases, inl, inr,
}
use mathlib.Core.Path.{subst}
use tpst.PubSub.Invariant.{IsWellFormed}
use tpst.PubSub.Publish.Delivery.{pubsub_publish-Delivered}
use tpst.Server.State.{ServerState}
use tpst.Server.Handlers.{
  Config, PublishRequest, Broadcast, multi_server, multi_group, notify_indexes, publish,
  group_broadcast, coordinator_broadcast, publish_multi_server, publish_multi_group,
}
use tpst.Server.Handlers.Spec.{named, publish-named, notify_indexes-tasks}
use tpst.Server.Network.{
  Member, Network, answer, requests, all_requests, set_state, deliver_all, deliver,
}
use tpst.Server.Network.Spread.{sends, spread_all, spread}

-- What decides the requests of a server is the same.
abbrev pub SameMember : Option Member → Option Member → Type 0
SameMember none none = Unit
SameMember (some m) (some m') =
    (m'.config ≡ m.config)
    × (m'.worker_list ≡ m.worker_list)
    × (m'.state.event_record_map ≡ m.state.event_record_map)
SameMember none (some m') = ⊥
SameMember (some m) none = ⊥

-- `n'` is `n` with other tables of subscriptions, which are well-formed.
pub record Same (n n' : Network) : Type 0 where
  pub coordinators : n'.coordinators ≡ n.coordinators
  pub members : (addr : Bytes) → SameMember (n.member addr) (n'.member addr)
  pub formed : (addr : Bytes) (m : Member) → n'.member addr ≡ some m → IsWellFormed m.state.pubsub

SameMember-refl : (o : Option Member) → SameMember o o
SameMember-refl none = tt
SameMember-refl (some m) = (refl, refl, refl)

pub Same-refl :
    (n : Network)
    → ((addr : Bytes) (m : Member) → n.member addr ≡ some m → IsWellFormed m.state.pubsub)
    → Same n n
Same-refl n formed = record {
  coordinators = refl;
  members = λ addr. SameMember-refl (n.member addr);
  formed = formed;
}

-- A request with the match type `NAME`.
abbrev pub Named : PublishRequest → Type 0
Named r = r.match_type ≡ codes "NAME"

notify_indexes-kept :
    (events : List Bytes) (s : ServerState)
    → IsWellFormed s.pubsub
    → IsWellFormed (notify_indexes events s).pubsub
      × ((notify_indexes events s).event_record_map ≡ s.event_record_map)
unfolding notify_indexes
notify_indexes-kept [] s wf = (wf, refl)
notify_indexes-kept (event ∷ events) s wf = rw (notify_indexes-tasks s wf event events) (wf, refl)

publish-returns :
    (c : Config) (r : PublishRequest) (s : ServerState)
    → Named r
    → IsWellFormed s.pubsub
    → (s' : ServerState) × (publish c r s
        ≡ ok (codes "OK", group_broadcast c r ++ coordinator_broadcast c r s, s'))
      × IsWellFormed s'.pubsub
      × (s'.event_record_map ≡ s.event_record_map)
publish-returns c r s name wf =
    let (pubsub, done, d) = pubsub_publish-Delivered r.events r.metadata s.pubsub wf in
    let whole : named r.events r.source r.metadata ≡ r =
      ap (λ t. record r { match_type = t }) (sym name) in
    let (wf', records) =
      notify_indexes-kept r.events (record s { pubsub = pubsub }) d.well_formed in
    (
      notify_indexes r.events (record s { pubsub = pubsub }),
      subst
          (λ q.
            publish c q s
            ≡ ok (
              codes "OK",
              group_broadcast c q ++ coordinator_broadcast c q s,
              notify_indexes r.events (record s { pubsub = pubsub }),
            ))
          whole (publish-named c r.events r.source r.metadata s pubsub done),
      wf',
      records,
    )

module _ (n n' : Network) (same : Same n n') where
  same_answer :
      (o o' : Option Member)
      → SameMember o o'
      → elim o' [ none ↦ codes "RPC failed" | some m ↦ codes "OK" ]
        ≡ elim o [ none ↦ codes "RPC failed" | some m ↦ codes "OK" ]
  same_answer none none h = refl
  same_answer (some m) (some m') h = refl
  same_answer none (some m') h = absurd h
  same_answer (some m) none h = absurd h

  answer-Same : answer n' ≡ answer n
  answer-Same = λ i addr. same_answer (n.member addr) (n'.member addr) (same.members addr) i

  requests-Same :
      (m m' : Member) (b : Broadcast)
      → SameMember (some m) (some m')
      → requests n' m' b ≡ requests n m b
  unfolding requests
  requests-Same m m' (multi_server events metadata) (config, workers, records) =
      rw (config, workers, answer-Same) refl
  requests-Same m m' (multi_group events metadata) (config, workers, records) =
      rw (config, same.coordinators) refl

  all_requests-Same :
      (m m' : Member) (bs : List Broadcast)
      → SameMember (some m) (some m')
      → all_requests n' m' bs ≡ all_requests n m bs
  unfolding all_requests
  all_requests-Same m m' [] h = refl
  all_requests-Same m m' (b ∷ bs) h = rw (requests-Same m m' b h, all_requests-Same m m' bs h) refl

abbrev AllNamed : List (Bytes × PublishRequest) → Type 0
AllNamed = All (λ x. Named x.1)

AllNamed-if :
    (b : Bool) (xs ys : List (Bytes × PublishRequest))
    → AllNamed xs
    → AllNamed ys
    → AllNamed (if b then xs else ys)
AllNamed-if true xs ys h k = h
AllNamed-if false xs ys h k = k

multi_server-AllNamed :
    (c : Config) (reply : Bytes → Bytes) (events : List Bytes) (metadata : Bytes)
    (addrs : List Bytes)
    → AllNamed (publish_multi_server c reply events metadata addrs)
unfolding publish_multi_server
multi_server-AllNamed c reply events metadata [] = tt
multi_server-AllNamed c reply events metadata (addr ∷ addrs) =
    let rest = multi_server-AllNamed c reply events metadata addrs in
    AllNamed-if (bytes_eq c.server_addr addr) _ _ rest
      (refl, AllNamed-if (bytes_eq (reply addr) (codes "OK")) _ _ rest tt)

multi_group-AllNamed :
    (c : Config) (events : List Bytes) (metadata : Bytes) (addrs : List Bytes)
    → AllNamed (publish_multi_group c events metadata addrs)
unfolding publish_multi_group
multi_group-AllNamed c events metadata [] = tt
multi_group-AllNamed c events metadata (addr ∷ addrs) =
    let rest = multi_group-AllNamed c events metadata addrs in
    AllNamed-if (bytes_eq addr c.server_addr) _ _ rest (refl, rest)

all_requests-AllNamed :
    (n : Network) (m : Member) (bs : List Broadcast) → AllNamed (all_requests n m bs)
unfolding all_requests requests
all_requests-AllNamed n m [] = tt
all_requests-AllNamed n m (multi_server events metadata ∷ bs) =
    All-append _ (publish_multi_server m.config (answer n) events metadata m.worker_list) _
      (multi_server-AllNamed m.config (answer n) events metadata m.worker_list)
      (all_requests-AllNamed n m bs)
all_requests-AllNamed n m (multi_group events metadata ∷ bs) =
    All-append _ (publish_multi_group m.config events metadata n.coordinators) _
      (multi_group-AllNamed m.config events metadata n.coordinators) (all_requests-AllNamed n m bs)

some-same {ℓ} : {A : Type ℓ} {a b : A} → some a ≡ some b → a ≡ b
some-same h = cc

set_state-Same :
    (n n' : Network) (addr : Bytes) (m m' : Member) (s : ServerState)
    → Same n n'
    → n.member addr ≡ some m
    → SameMember (some m) (some (record m' { state = s }))
    → IsWellFormed s.pubsub
    → Same n (set_state addr m' s n')
set_state-Same n n' addr m m' s same at_addr keeps wf = record {
  coordinators = same.coordinators;
  members = λ other. elim (Bool-cases (bytes_eq other addr)) [
    | inl e ↦ let here : other ≡ addr = (bytes_eq_iff other addr).0 e in rw (e, here, at_addr) keeps
    | inr e ↦ rw e (same.members other)
  ];
  formed = λ other q found. elim (Bool-cases (bytes_eq other addr)) [
    | inl e ↦
        let it : record m' { state = s } ≡ q = some-same (rw e at found) in
        subst (λ q. IsWellFormed q.state.pubsub) it wf
    | inr e ↦ same.formed other q (rw e at found)
  ];
}

-- The broadcasts that the handler starts.
broadcasts-Same :
    (m m' : Member) (r : PublishRequest)
    → SameMember (some m) (some m')
    → group_broadcast m'.config r ++ coordinator_broadcast m'.config r m'.state
      ≡ group_broadcast m.config r ++ coordinator_broadcast m.config r m.state
unfolding coordinator_broadcast
broadcasts-Same m m' r (config, workers, records) = rw (config, records) refl

-- A spread that ends is what the deliveries make.
abbrev Delivers : ℕ → Network → Network → Bytes × PublishRequest → Type 0
Delivers depth n n' x =
    (handled : List (Bytes × Bytes))
    → spread depth n x ≡ ok handled
    → (n'' : Network) × (deliver depth n' x ≡ ok (n'', handled)) × Same n n''

deliver_all-Same :
    (depth : ℕ) (n : Network)
    → ((n' : Network) (x : Bytes × PublishRequest) → Same n n' → Named x.1 → Delivers depth n n' x)
    → (n' : Network) (xs : List (Bytes × PublishRequest)) (handled : List (Bytes × Bytes))
    → Same n n'
    → AllNamed xs
    → spread_all (spread depth n) xs ≡ ok handled
    → (n'' : Network) × (deliver_all (deliver depth) n' xs ≡ ok (n'', handled)) × Same n n''
unfolding spread_all deliver_all
deliver_all-Same depth n each n' [] handled same names h =
    (n', ap (λ r. ok (n', r)) (ok-injective h), same)
deliver_all-Same depth n each n' (x ∷ xs) handled same names h =
    let (a, first, more) = >>=-eq-ok (spread depth n x) _ h in
    let (b, rest, done) = >>=-eq-ok (spread_all (spread depth n) xs) _ more in
    let (n1, delivered, same1) = each n' x same names.0 a first in
    let (n2, others, same2) = deliver_all-Same depth n each n1 xs b same1 names.1 rest in
    (n2, rw delivered (rw others (ap (λ r. ok (n2, r)) (ok-injective done))), same2)

module _ (depth : ℕ) (n n' : Network) (addr : Bytes) (r : PublishRequest) (m m' : Member)
    (same : Same n n') (name : Named r) (at_n : n.member addr ≡ some m)
    (at_n' : n'.member addr ≡ some m')
    (each : (n' : Network) (x : Bytes × PublishRequest)
      → Same n n'
      → Named x.1
      → Delivers depth n n' x) where
  members-Same : SameMember (some m) (some m')
  members-Same = rw at_n' at (rw at_n at (same.members addr))

  deliver-step : Delivers (suc depth) n n' (addr, r)
  unfolding spread deliver sends
  deliver-step handled h =
      let (s, returned, wf, records) =
        publish-returns m'.config r m'.state name (same.formed addr m' at_n') in
      let kept : SameMember (some m) (some (record m' { state = s })) =
        (members-Same.0, members-Same.1, records ∙ members-Same.2) in
      let n1 : Network = set_state addr m' s n' in
      let same1 : Same n n1 = set_state-Same n n' addr m m' s same at_n kept wf in
      let bs : List Broadcast =
        group_broadcast m.config r ++ coordinator_broadcast m.config r m.state in
      let (rest, spreads, done) =
        >>=-eq-ok (spread_all (spread depth n) (all_requests n m bs)) _ (rw (at_n, spread) at h) in
      let (n2, delivered, same2) =
        deliver_all-Same depth n each n1 (all_requests n m bs) rest same1
          (all_requests-AllNamed n m bs) spreads in
      let sent : all_requests n1 (record m' { state = s })
            (group_broadcast m'.config r ++ coordinator_broadcast m'.config r m'.state)
          ≡ all_requests n m bs =
        ap (all_requests n1 (record m' { state = s })) (broadcasts-Same m m' r members-Same)
        ∙ all_requests-Same n n1 same1 m (record m' { state = s }) bs kept in
      (
        n2,
        rw (at_n', deliver)
            (rw returned (rw sent (rw delivered (ap (λ q. ok (n2, q)) (ok-injective done))))),
        same2,
      )

-- A publication by name at servers with well-formed tables: each handler returns, and if the spread
-- of the request ends, the delivery does, with the same servers.
pub deliver-spread :
    (depth : ℕ) (n n' : Network) (x : Bytes × PublishRequest)
    → Same n n'
    → Named x.1
    → Delivers depth n n' x
unfolding spread deliver
deliver-spread zero n n' (addr, r) same name handled h = cc
deliver-spread (suc depth) n n' (addr, r) same name handled h =
    elim (Option-cases (n.member addr)) [
      | inl gone ↦ elim (Option-cases (n'.member addr)) [
        | inl gone' ↦ (
          n',
          rw (gone', deliver) (ap (λ q. ok (n', q)) (ok-injective (rw (gone, spread) at h))),
          same,
        )
        | inr (m', at_n') ↦ absurd (rw at_n' at (rw gone at (same.members addr)))
      ]
      | inr (m, at_n) ↦ elim (Option-cases (n'.member addr)) [
        | inl gone' ↦ absurd (rw gone' at (rw at_n at (same.members addr)))
        | inr (m', at_n') ↦
            deliver-step depth n n' addr r m m' same name at_n at_n'
              (λ n' x. deliver-spread depth n n' x) handled h
      ]
    ]
