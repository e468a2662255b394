-- ===== src/TaskManager/Register/Laws.antt =====
-- What `registerEvent` of src/observer/taskmanager.cpp keeps and changes.
use tpst.Prelude.{
  ◌≡◌, refl, Bool, true, false, List, [], ◌∷◌, ◌++◌, Bytes, bytes_eq, bytes_eq_iff, bytes_eq_refl,
  if◌then◌else◌, Bool-cases, inl, inr, arith,
}
use mathlib.Core.List.{append-nil}
use tpst.TaskManager.{TaskManagerMeta, HeadNode}
use tpst.TaskManager.Register.{has_name, register_event}

-- The tasks that an event notifies.
unfoldable pub subscribers : Bytes → List HeadNode → List TaskManagerMeta
subscribers te [] = []
subscribers te (node ∷ es) =
    let rest = subscribers te es in if bytes_eq te node.te then node.tm_list ++ rest else rest

unfoldable pub has_event : Bytes → List HeadNode → Bool
has_event te [] = false
has_event te (node ∷ es) = if bytes_eq te node.te then true else has_event te es

abbrev pub Distinct : List HeadNode → Type 0
Distinct [] = Unit
Distinct (node ∷ es) = (has_event node.te es ≡ false) × Distinct es

abbrev pub NoRepeat : List TaskManagerMeta → Type 0
NoRepeat [] = Unit
NoRepeat (m ∷ ms) = (has_name m.name ms ≡ false) × NoRepeat ms

abbrev NodesNoRepeat : List HeadNode → Type 0
NodesNoRepeat [] = Unit
NodesNoRepeat (node ∷ es) = NoRepeat node.tm_list × NodesNoRepeat es

-- Each event has one node, and each node holds a task once.
pub record IsIndexed (es : List HeadNode) : Type 0 where
  pub one_node : Distinct es
  pub once : NodesNoRepeat es

has_name-append :
    (name : Bytes) (m : TaskManagerMeta) (ms : List TaskManagerMeta)
    → has_name name (ms ++ m ∷ []) ≡ (if bytes_eq name m.name then true else has_name name ms)
unfolding has_name
has_name-append name m [] = refl
has_name-append name m (n ∷ ms) = ground (arith, has_name-append name m ms)

NoRepeat-append :
    (m : TaskManagerMeta) (ms : List TaskManagerMeta)
    → NoRepeat ms
    → has_name m.name ms ≡ false
    → NoRepeat (ms ++ m ∷ [])
unfolding has_name
NoRepeat-append m [] h fresh = (refl, tt)
NoRepeat-append m (n ∷ ms) h fresh = (
  ground
      (arith, has_name-append n.name m ms, bytes_eq_iff m.name n.name, bytes_eq_iff n.name m.name),
  NoRepeat-append m ms h.1 (ground (arith, fresh)),
)

has_event-register :
    (te : Bytes) (m : TaskManagerMeta) (sub : Bytes) (es : List HeadNode)
    → has_event te (register_event m sub es) ≡ (if bytes_eq te sub then true else has_event te es)
unfolding has_event register_event
has_event-register te m sub [] = refl
has_event-register te m sub (node ∷ es) = ground (
  arith,
  has_event-register te m sub es,
  bytes_eq_iff te sub,
  bytes_eq_iff sub node.te,
  bytes_eq_iff te node.te,
  bytes_eq_refl te,
)

register_event-Distinct :
    (m : TaskManagerMeta) (te : Bytes) (es : List HeadNode)
    → Distinct es
    → Distinct (register_event m te es)
unfolding register_event has_event
register_event-Distinct m te [] h = (refl, tt)
register_event-Distinct m te (node ∷ es) h = elim (Bool-cases (bytes_eq te node.te)) [
  | inl same ↦ elim (Bool-cases (has_name m.name node.tm_list)) [
    | inl known ↦ rw same (rw known h)
    | inr new ↦ rw same (rw new h)
  ]
  | inr other ↦ rw other (
    ground (
      arith,
      has_event-register node.te m te es,
      h.0,
      other,
      bytes_eq_iff node.te te,
      bytes_eq_refl te,
    ),
    register_event-Distinct m te es h.1,
  )
]

register_event-NodesNoRepeat :
    (m : TaskManagerMeta) (te : Bytes) (es : List HeadNode)
    → NodesNoRepeat es
    → NodesNoRepeat (register_event m te es)
unfolding register_event has_name
register_event-NodesNoRepeat m te [] h = ((refl, tt), tt)
register_event-NodesNoRepeat m te (node ∷ es) h = elim (Bool-cases (bytes_eq te node.te)) [
  | inl same ↦ elim (Bool-cases (has_name m.name node.tm_list)) [
    | inl known ↦ rw same (rw known h)
    | inr new ↦ rw same (rw new (NoRepeat-append m node.tm_list h.0 new, h.1))
  ]
  | inr other ↦ rw other (h.0, register_event-NodesNoRepeat m te es h.1)
]

-- Registering a task keeps one node for each event, in which each name stands once.
pub register_event-IsIndexed :
    (m : TaskManagerMeta) (te : Bytes) (es : List HeadNode)
    → IsIndexed es
    → IsIndexed (register_event m te es)
register_event-IsIndexed m te es h = record {
  one_node = register_event-Distinct m te es h.one_node;
  once = register_event-NodesNoRepeat m te es h.once;
}

pub subscribers-none :
    (te : Bytes) (es : List HeadNode) → has_event te es ≡ false → subscribers te es ≡ []
unfolding has_event subscribers
subscribers-none te [] h = refl
subscribers-none te (node ∷ es) h = ground (arith, subscribers-none te es)

-- The list with a task added, unless it holds one of that name.
abbrev pub with_task : TaskManagerMeta → List TaskManagerMeta → List TaskManagerMeta
with_task m ms = if has_name m.name ms then ms else ms ++ m ∷ []

-- Where each event has one node, registering a task for an event appends it to that event's
-- subscribers unless one of them has its name, and changes no other event's.
pub subscribers-register :
    (e : Bytes) (m : TaskManagerMeta) (te : Bytes) (es : List HeadNode)
    → Distinct es
    → subscribers e (register_event m te es)
      ≡ (if bytes_eq e te then with_task m (subscribers te es) else subscribers e es)
unfolding subscribers register_event has_name
subscribers-register e m te [] h = ground (arith, bytes_eq_refl te)
subscribers-register e m te (node ∷ es) h = elim (Bool-cases (bytes_eq te node.te)) [
  | inl same ↦
      let here : te ≡ node.te = (bytes_eq_iff te node.te).0 same in
      let no_more : subscribers te es ≡ [] = subscribers-none te es (rw here h.0) in
      ground (
        arith,
        same,
        here,
        no_more,
        bytes_eq_iff e te,
        bytes_eq_iff e node.te,
        bytes_eq_refl te,
        append-nil node.tm_list,
        append-nil (node.tm_list ++ m ∷ []),
      )
  | inr other ↦ ground (
    arith,
    other,
    subscribers-register e m te es h.1,
    bytes_eq_iff e te,
    bytes_eq_iff e node.te,
    bytes_eq_iff te node.te,
    bytes_eq_refl te,
  )
]
