-- ===== src/Autodiscover/NodeList.antt =====
-- pkg/config/autodiscover/autodiscover_targets.go: the nodes of the cluster with their roles.
use test_network_function.Prelude.{
  Bytes, bytes_eq, str_eq, str_eq_iff, Map, lookup, insert, lookup-insert, List, [], ◌∷◌, ◌++◌,
  Bool, true, false, Bool-cases, ◌||◌, ◌≡◌, ◌∙◌, ap, inl, inr, refl, Option, none, some,
  Option-cases, arith, if◌then◌else◌,
}
use test_network_function.Config.{Node, has_label, is_master, is_worker, master_label, worker_label}

-- The loop over the names of the masters.
unfoldable pub add_masters : List Bytes → Map Bytes Node → Map Bytes Node
add_masters [] nodes = nodes
add_masters (name ∷ names) nodes =
    add_masters names (insert name (record { name = name; labels = master_label ∷ [] }) nodes)

unfoldable pub add_worker : Bytes → Map Bytes Node → Map Bytes Node
add_worker name nodes = elim (lookup name nodes) [
  | some node ↦ insert name (record node { labels = node.labels ++ worker_label ∷ [] }) nodes
  | none ↦ insert name (record { name = name; labels = worker_label ∷ [] }) nodes
]

-- The loop over the names of the workers.
unfoldable pub add_workers : List Bytes → Map Bytes Node → Map Bytes Node
unfolding add_worker
add_workers [] nodes = nodes
add_workers (name ∷ names) nodes = add_workers names (add_worker name nodes)

-- `GetNodesList`, from the names of both runs of the `nodenames` test, `none` for a failed run.
unfoldable pub get_nodes_list : Option (List Bytes) → Option (List Bytes) → Map Bytes Node
unfolding add_masters add_workers
get_nodes_list none workers = []
get_nodes_list (some masters) none = add_masters masters []
get_nodes_list (some masters) (some workers) = add_workers workers (add_masters masters [])

-- The name is in the list.
abbrev pub listed : Bytes → List Bytes → Bool
listed j [] = false
listed j (name ∷ names) = str_eq name j || listed j names

-- The node under a name: its name, and whether it is a master or a worker.
abbrev pub Role : Type 0
Role = Bytes × (Bool × Bool)

abbrev pub role_of : Option Node → Option Role
role_of none = none
role_of (some node) = some (node.name, (is_master node, is_worker node))

abbrev as_master : Bool → Bytes → Option Role → Option Role
as_master true j found = some (j, (true, false))
as_master false j found = found

abbrev as_worker : Bool → Bytes → Option Role → Option Role
as_worker false j found = found
as_worker true j none = some (j, (false, true))
as_worker true j (some (name, (master, worker))) = some (name, (master, true))

-- The role that the two lists give a name.
abbrev pub role_listed : Bytes → Bool → Bool → Option Role
role_listed j false false = none
role_listed j true worker = some (j, (true, worker))
role_listed j false true = some (j, (false, true))

has_label_append :
    (label t : Bytes) (labels : List Bytes)
    → has_label label (labels ++ t ∷ []) ≡ (has_label label labels || str_eq t label)
unfolding has_label
has_label_append label t [] = ground arith
has_label_append label t (u ∷ labels) = ground (arith, has_label_append label t labels)

as_master_twice :
    (a b : Bool) (j : Bytes) (o : Option Role)
    → as_master b j (as_master a j o) ≡ as_master (a || b) j o
as_master_twice true true j o = refl
as_master_twice true false j o = refl
as_master_twice false b j o = refl

as_worker_twice :
    (a b : Bool) (j : Bytes) (o : Option Role)
    → as_worker b j (as_worker a j o) ≡ as_worker (a || b) j o
as_worker_twice false b j o = refl
as_worker_twice true false j o = ground arith
as_worker_twice true true j none = refl
as_worker_twice true true j (some (name, (master, worker))) = refl

abbrev master : Bytes → Node
master name = record { name = name; labels = master_label ∷ [] }

abbrev worker : Bytes → Node
worker name = record { name = name; labels = worker_label ∷ [] }

abbrev with_worker : Node → Node
with_worker node = record node { labels = node.labels ++ worker_label ∷ [] }

master-role : (name : Bytes) → role_of (some (master name)) ≡ some (name, (true, false))
unfolding is_master is_worker has_label str_eq
master-role name = refl

worker-role : (name : Bytes) → role_of (some (worker name)) ≡ some (name, (false, true))
unfolding is_master is_worker has_label str_eq
worker-role name = refl

other_label : str_eq worker_label master_label ≡ false
unfolding str_eq
other_label = refl

with_worker-role :
    (node : Node) → role_of (some (with_worker node)) ≡ some (node.name, (is_master node, true))
unfolding is_master is_worker
with_worker-role node = ground (
  arith,
  has_label_append master_label worker_label node.labels,
  has_label_append worker_label worker_label node.labels,
  other_label,
  str_eq_iff worker_label worker_label,
)

insert-role :
    (name j : Bytes) (node : Node) (nodes : Map Bytes Node)
    → role_of (lookup j (insert name node nodes))
      ≡ (if str_eq name j then role_of (some node) else role_of (lookup j nodes))
insert-role name j node nodes = elim (Bool-cases (str_eq name j)) [
  | inl e ↦ ground (arith, lookup-insert name j node nodes)
  | inr e ↦ ground (arith, lookup-insert name j node nodes)
]

add_masters-role :
    (j : Bytes) (names : List Bytes) (nodes : Map Bytes Node)
    → role_of (lookup j (add_masters names nodes))
      ≡ as_master (listed j names) j (role_of (lookup j nodes))
unfolding add_masters
add_masters-role j [] nodes = refl
add_masters-role j (name ∷ names) nodes =
    let first : role_of (lookup j (insert name (master name) nodes))
        ≡ as_master (str_eq name j) j (role_of (lookup j nodes)) =
      ground (arith, insert-role name j (master name) nodes, master-role name, str_eq_iff name j) in
    add_masters-role j names (insert name (master name) nodes)
    ∙ ap (as_master (listed j names) j) first
    ∙ as_master_twice (str_eq name j) (listed j names) j (role_of (lookup j nodes))

add_worker-role :
    (j name : Bytes) (nodes : Map Bytes Node)
    → role_of (lookup j (add_worker name nodes))
      ≡ as_worker (str_eq name j) j (role_of (lookup j nodes))
unfolding add_worker
add_worker-role j name nodes = elim (Option-cases (lookup name nodes)) [
  | inl e ↦
      let added : add_worker name nodes ≡ insert name (worker name) nodes = ground arith in
      ground
        (arith, added, insert-role name j (worker name) nodes, worker-role name, str_eq_iff name j)
  | inr (node, e) ↦
      let added : add_worker name nodes ≡ insert name (with_worker node) nodes = ground arith in
      ground (
        arith,
        added,
        insert-role name j (with_worker node) nodes,
        with_worker-role node,
        str_eq_iff name j,
      )
]

add_workers-role :
    (j : Bytes) (names : List Bytes) (nodes : Map Bytes Node)
    → role_of (lookup j (add_workers names nodes))
      ≡ as_worker (listed j names) j (role_of (lookup j nodes))
unfolding add_workers
add_workers-role j [] nodes = refl
add_workers-role j (name ∷ names) nodes =
    add_workers-role j names (add_worker name nodes)
    ∙ ap (as_worker (listed j names) j) (add_worker-role j name nodes)
    ∙ as_worker_twice (str_eq name j) (listed j names) j (role_of (lookup j nodes))

-- When both runs succeed, a node is known under its own name exactly when one of the lists names
-- it; it is then a master exactly when the first list names it, and a worker exactly when the
-- second one does.
pub get_nodes_list_lem :
    (j : Bytes) (masters workers : List Bytes)
    → role_of (lookup j (get_nodes_list (some masters) (some workers)))
      ≡ role_listed j (listed j masters) (listed j workers)
unfolding get_nodes_list lookup
get_nodes_list_lem j masters workers =
    ground
      (arith, add_workers-role j workers (add_masters masters []), add_masters-role j masters [])
