-- ===== src/Config/Creation.antt =====
-- Which nodes are known, and which of them have a deployment.
use test_network_function.Prelude.{
  Bytes, bytes_eq, str_eq, str_eq_iff, Map, lookup, insert, lookup-insert, [], ◌∷◌, Bool, true,
  false, Bool-cases, ◌||◌, ◌≡◌, ◌≢◌, inl, inr, refl, Option, none, some, Option-cases, arith,
  if◌then◌else◌, ◌∙◌, sym, subst,
}
use test_network_function.Config.{Node}
use test_network_function.Config.Nodes.{
  NodeConfig, Nodes, Containers, new_node, add_nodes, mark_node, mark_nodes, create_nodes,
}
use test_network_function.Config.Labelling.{IsNodes}

-- The last of the nodes that has the name, with nothing attached.
abbrev pub last_named : Bytes → Map Bytes Node → Option NodeConfig → Option NodeConfig
last_named j [] found = found
last_named j ((k, n) ∷ nodes) found =
    last_named j nodes (if str_eq n.name j then some (new_node n) else found)

-- A container under test runs on the node.
abbrev pub hosts : Bytes → Containers → Bool
hosts j [] = false
hosts j ((id, c) ∷ containers) =
    str_eq c.container_configuration.identifier.node_name j || hosts j containers

abbrev pub with_deployment : Bool → Option NodeConfig → Option NodeConfig
with_deployment on none = none
with_deployment true (some n) = some (record n { deployment = true; debug = true })
with_deployment false (some n) = some n

add_nodes-lookup :
    (j : Bytes) (nodes : Map Bytes Node) (configs : Nodes)
    → lookup j (add_nodes nodes configs) ≡ last_named j nodes (lookup j configs)
unfolding add_nodes
add_nodes-lookup j [] configs = refl
add_nodes-lookup j ((k, n) ∷ nodes) configs =
    rw (← lookup-insert n.name j (new_node n) configs)
      (add_nodes-lookup j nodes (insert n.name (new_node n) configs))

with_deployment_twice :
    (a b : Bool) (o : Option NodeConfig)
    → with_deployment b (with_deployment a o) ≡ with_deployment (a || b) o
with_deployment_twice a b none = refl
with_deployment_twice true true (some n) = refl
with_deployment_twice true false (some n) = refl
with_deployment_twice false true (some n) = refl
with_deployment_twice false false (some n) = refl

mark_node-lookup :
    (j name : Bytes) (configs : Nodes)
    → lookup j (mark_node name configs) ≡ with_deployment (str_eq name j) (lookup j configs)
unfolding mark_node
mark_node-lookup j name configs = elim (Option-cases (lookup name configs)) [
  | inl e ↦ elim (Bool-cases (str_eq name j)) [
    | inl same ↦ ground (arith, str_eq_iff name j)
    | inr other ↦ elim (Option-cases (lookup j configs)) [
      | inl e' ↦ ground arith
      | inr (n, e') ↦ ground arith
    ]
  ]
  | inr (n, e) ↦ elim (Bool-cases (str_eq name j)) [
    | inl same ↦ ground (
      arith,
      str_eq_iff name j,
      lookup-insert name j (record n { deployment = true; debug = true }) configs,
    )
    | inr other ↦ elim (Option-cases (lookup j configs)) [
      | inl e' ↦
          ground
            (arith, lookup-insert name j (record n { deployment = true; debug = true }) configs)
      | inr (k, e') ↦
          ground
            (arith, lookup-insert name j (record n { deployment = true; debug = true }) configs)
    ]
  ]
]

mark_nodes-lookup :
    (j : Bytes) (containers : Containers) (configs : Nodes)
    → lookup j (mark_nodes containers configs)
      ≡ with_deployment (hosts j containers) (lookup j configs)
unfolding mark_nodes
mark_nodes-lookup j [] configs = elim (Option-cases (lookup j configs)) [
  | inl e ↦ ground arith
  | inr (n, e) ↦ ground arith
]
mark_nodes-lookup j ((id, c) ∷ containers) configs =
    let name = c.container_configuration.identifier.node_name in
    ground (
      arith,
      mark_nodes-lookup j containers (mark_node name configs),
      mark_node-lookup j name configs,
      with_deployment_twice (str_eq name j) (hosts j containers) (lookup j configs),
    )

-- A node is known under a name when a node of the cluster has it; of several with one name it is
-- the last. It has a deployment, and is to have a debug pod, exactly when a container under test
-- runs on it.
pub create_nodes-lookup :
    (j : Bytes) (nodes : Map Bytes Node) (containers : Containers)
    → lookup j (create_nodes nodes containers)
      ≡ with_deployment (hosts j containers) (last_named j nodes none)
unfolding create_nodes lookup
create_nodes-lookup j nodes containers =
    ground (arith, mark_nodes-lookup j containers (add_nodes nodes []), add_nodes-lookup j nodes [])

-- Every node of the cluster has a name.
abbrev pub AllNamed : Map Bytes Node → Type 0
AllNamed [] = Unit
AllNamed ((k, n) ∷ nodes) = (n.name ≢ []) × AllNamed nodes

insert-IsNodes :
    (name : Bytes) (n : NodeConfig) (configs : Nodes)
    → name ≢ []
    → IsNodes configs
    → IsNodes (insert name n configs)
unfolding insert lookup
insert-IsNodes name n [] named is = (named, refl, tt)
insert-IsNodes name n ((k, m) ∷ configs) named (named', new, is) =
    elim (Bool-cases (str_eq k name)) [
      | inl e ↦ ground (arith, str_eq_iff k name)
      | inr e ↦ ground (
        arith,
        insert-IsNodes name n configs named is,
        lookup-insert name k n configs,
        str_eq_iff k name,
        str_eq_iff name k,
      )
    ]

add_nodes-IsNodes :
    (nodes : Map Bytes Node) (configs : Nodes)
    → AllNamed nodes
    → IsNodes configs
    → IsNodes (add_nodes nodes configs)
unfolding add_nodes
add_nodes-IsNodes [] configs named is = is
add_nodes-IsNodes ((k, n) ∷ nodes) configs (named, rest) is =
    add_nodes-IsNodes nodes (insert n.name (new_node n) configs) rest
      (insert-IsNodes n.name (new_node n) configs named is)

found_named :
    (name : Bytes) (n : NodeConfig) (configs : Nodes)
    → IsNodes configs
    → lookup name configs ≡ some n
    → name ≢ []
unfolding lookup
found_named name n [] is there e = cc
found_named name n ((k, m) ∷ configs) (named, new, is) there e = elim (Bool-cases (str_eq k name)) [
  | inl same ↦ named ((str_eq_iff k name).0 same ∙ e)
  | inr other ↦ found_named name n configs is (ground arith) e
]

mark_node-IsNodes :
    (name : Bytes) (configs : Nodes) → IsNodes configs → IsNodes (mark_node name configs)
unfolding mark_node
mark_node-IsNodes name configs is = elim (Option-cases (lookup name configs)) [
  | inl e ↦
      let same : mark_node name configs ≡ configs = ground arith in
      subst (λ (t : Nodes). IsNodes t) (sym same) is
  | inr (n, e) ↦
      let marked : NodeConfig = record n { deployment = true; debug = true } in
      let added : mark_node name configs ≡ insert name marked configs = ground arith in
      subst (λ (t : Nodes). IsNodes t) (sym added)
        (insert-IsNodes name marked configs (found_named name n configs is e) is)
]

mark_nodes-IsNodes :
    (containers : Containers) (configs : Nodes)
    → IsNodes configs
    → IsNodes (mark_nodes containers configs)
unfolding mark_nodes
mark_nodes-IsNodes [] configs is = is
mark_nodes-IsNodes ((id, c) ∷ containers) configs is =
    let name = c.container_configuration.identifier.node_name in
    mark_nodes-IsNodes containers (mark_node name configs) (mark_node-IsNodes name configs is)

-- The nodes of a cluster whose nodes have names are listed once each, and under their names.
pub create_nodes-IsNodes :
    (nodes : Map Bytes Node) (containers : Containers)
    → AllNamed nodes
    → IsNodes (create_nodes nodes containers)
unfolding create_nodes
create_nodes-IsNodes nodes containers named =
    mark_nodes-IsNodes containers (add_nodes nodes []) (add_nodes-IsNodes nodes [] named tt)
