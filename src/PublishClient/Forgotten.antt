-- ===== src/PublishClient/Forgotten.antt =====
-- A cluster for which `getClientFromEvent` of src/publishclient/pubsubclient.cc once found no server.
use tpst.Prelude.{
  ℕ, suc, ◌+◌, ◌%◌, ◌≤◌, ◌<◌, ◌≡◌, refl, ◌∙◌, ap, [], ◌∷◌, Option, none, some, Bytes, bytes_eq_refl,
  ok, ok-injective, >>=-eq-ok, length, ◌==◌, if◌then◌else◌, Option-cases, Bool-cases, inl, inr,
  arith,
}
use tpst.StdMap.{bytes_key, Map, find, find_or, touch, size}
use tpst.StdMap.Laws.{find-put}
use tpst.GroupManager.{FileSystem, get_cluster_dir_from_event_msg}
use tpst.PublishClient.{
  Clients, client_at, get_server_id_from_addr, with_cluster, get_client_from_event,
}

-- A place below the size of the map has a client.
client_at-ne-none :
    (counter id : ℕ) (m : Map Bytes Bytes)
    → counter ≤ id
    → id < counter + length m
    → client_at counter id m ≡ none
    → ⊥
unfolding client_at
client_at-ne-none counter id [] low high h = absurd (omega (arith, low, high))
client_at-ne-none counter id ((addr, client) ∷ m) low high h = elim (Bool-cases (counter == id)) [
  | inl here ↦ cc (rw here at h)
  | inr later ↦
      client_at-ne-none (suc counter) id m (ground (arith, later, low)) (omega (arith, high))
        (rw later at h)
]

find-touch :
    (dir : Bytes) (m : Map Bytes (Map Bytes Bytes))
    → find_or [] dir m ≡ []
    → find dir (touch [] dir m) ≡ some []
unfolding touch find_or
find-touch dir m h = elim (Option-cases (find dir m)) [
  | inl missing ↦ rw (missing, touch) (find-put dir dir [] m ∙ rw (bytes_eq_refl dir) refl)
  | inr (clients, found) ↦
      let empty : clients ≡ [] = rw (found, find_or) at h in
      rw (found, touch) (found ∙ ap some empty)
]

nil_of_size : (m : Map Bytes Bytes) → size m ≡ 0 → m ≡ []
nil_of_size [] h = refl
nil_of_size (entry ∷ m) h = absurd (omega (arith, h))

module _ (fs : FileSystem) (event : Bytes) (group_number : ℕ) where
  abbrev first_entry : Bytes → Clients → Clients
  first_entry dir s = record s { workers = touch [] dir s.workers }

  -- The lookup in the clients of the directory found nothing: then there are none.
  chosen_none :
      (random : ℕ) (dir : Bytes) (s s' : Clients)
      → ◌≡◌ {A = Option Bytes × Clients}
          (if size (find_or [] dir s.workers) == 0 then (none, first_entry dir s) else (
            client_at 0
                (get_server_id_from_addr random (size (find_or [] dir s.workers)))
                (find_or [] dir s.workers),
            first_entry dir s,
          ))
          (none, s')
      → find dir s'.workers ≡ some []
  unfolding get_server_id_from_addr
  chosen_none random dir s s' h = elim (Bool-cases (size (find_or [] dir s.workers) == 0)) [
    | inl empty ↦
        let same : first_entry dir s ≡ s' = ap (λ r. r.1) (rw empty at h) in
        rw (← same) (
          find-touch dir s.workers (nil_of_size (find_or [] dir s.workers) (ground (arith, empty))))
    | inr some_client ↦ absurd (
        client_at-ne-none 0 (random % size (find_or [] dir s.workers)) (find_or [] dir s.workers)
          (omega arith) (ground (arith, some_client)) (ap (λ r. r.0) (rw some_client at h)))
  ]

  no_client :
      (random : ℕ) (d : fs.Disk) (s : Clients) (dir : Bytes)
      → get_cluster_dir_from_event_msg event group_number ≡ ok dir
      → find dir s.workers ≡ some []
      → get_client_from_event fs event random group_number d s ≡ ok (none, s)
  unfolding get_client_from_event with_cluster find_or touch
  no_client random d s dir parsed empty =
      rw parsed (rw (empty, with_cluster) (rw (empty, find_or) (rw (empty, touch) refl)))

  -- Once a lookup of an event's cluster has found no server, no later lookup from there on finds one,
  -- whatever the directories hold by then.
  pub get_client_from_event-forgotten :
      (random random' : ℕ) (d d' : fs.Disk) (s s' : Clients)
      → get_client_from_event fs event random group_number d s ≡ ok (none, s')
      → get_client_from_event fs event random' group_number d' s' ≡ ok (none, s')
  unfolding get_client_from_event
  get_client_from_event-forgotten random random' d d' s s' h =
      let (dir, parsed, rest) = >>=-eq-ok (get_cluster_dir_from_event_msg event group_number) _ h in
      no_client random' d' s' dir parsed
        (chosen_none random dir (with_cluster fs dir d s) s' (ok-injective rest))
