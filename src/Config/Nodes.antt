-- ===== src/Config/Nodes.antt =====
-- pkg/config/config.go: the nodes of the cluster, those with deployments, and the choice of the
-- nodes that get a debug pod.
--
-- Go ranges over a map in an arbitrary order; the loops below take the order of the association
-- list, and the theorems hold for every list.
use test_network_function.Prelude.{
  ℕ, ◌+◌, Bytes, bytes_eq, str_eq, Map, lookup, insert, List, [], ◌∷◌, Bool, true, false, ◌&&◌,
  Option, none, some, Result, ok, err, ◌>>=◌, Panic, nil_dereference, if◌then◌else◌,
}
use test_network_function.Config.{ContainerIdentifier, ContainerConfig, Node, is_master, is_worker}

-- A session is a reference, `none` for nil.
pub record Oc : Type 0 where
  pub id : ℕ
  pub pod : Bytes
  pub container : Bytes
  pub namespace : Bytes

pub record Container : Type 0 where
  pub container_configuration : ContainerConfig
  pub oc : Option Oc
  pub default_network_ip_address : Bytes
  pub container_identifier : ContainerIdentifier

pub record NodeConfig : Type 0 where
  pub name : Bytes
  pub node : Node
  pub oc : Option Oc
  pub deployment : Bool
  pub debug : Bool

abbrev pub Nodes : Type 0
Nodes = Map Bytes NodeConfig

abbrev pub Containers : Type 0
Containers = Map ContainerIdentifier Container

unfoldable pub new_node : Node → NodeConfig
new_node n = record { name = n.name; node = n; oc = none; deployment = false; debug = false }

-- The first loop of `createNodes`.
unfoldable pub add_nodes : Map Bytes Node → Nodes → Nodes
unfolding new_node
add_nodes [] configs = configs
add_nodes ((k, n) ∷ nodes) configs = add_nodes nodes (insert n.name (new_node n) configs)

-- The body of the second loop of `createNodes`: a container marks the node that it runs on.
unfoldable pub mark_node : Bytes → Nodes → Nodes
mark_node name configs = elim (lookup name configs) [
  | none ↦ configs
  | some n ↦ insert name (record n { deployment = true; debug = true }) configs
]

unfoldable pub mark_nodes : Containers → Nodes → Nodes
unfolding mark_node
mark_nodes [] configs = configs
mark_nodes ((id, c) ∷ containers) configs =
    mark_nodes containers (mark_node c.container_configuration.identifier.node_name configs)

unfoldable pub create_nodes : Map Bytes Node → Containers → Nodes
unfolding add_nodes mark_nodes
create_nodes nodes containers = mark_nodes containers (add_nodes nodes [])

-- A loop of `labelNodes`: the first node of the role, unless one of the role has a debug pod.
unfoldable pub choose_node : (Node → Bool) → Bytes → Nodes → Bytes
choose_node role chosen [] = chosen
choose_node role chosen ((name, n) ∷ nodes) =
    let chosen' = if role n.node && str_eq chosen [] then name else chosen in
    let rest = choose_node role chosen' nodes in if role n.node && n.debug then [] else rest

-- `env.NodesUnderTest[name].debug = true`, unless the name is empty.
unfoldable pub set_debug : Bytes → Nodes → Result Panic Nodes
set_debug name nodes = if str_eq name [] then ok nodes else elim (lookup name nodes) [
  | none ↦ err nil_dereference
  | some n ↦ ok (insert name (record n { debug = true }) nodes)
]

-- The names of the nodes that `AddDebugLabel` labels.
unfoldable pub debug_names : Nodes → List Bytes
debug_names [] = []
debug_names ((name, n) ∷ nodes) =
    let rest = debug_names nodes in if n.debug then name ∷ rest else rest

-- `labelNodes`: the nodes after it, and those that were labelled in the cluster.
unfoldable pub label_nodes : Nodes → Result Panic (Nodes × List Bytes)
unfolding choose_node set_debug
label_nodes nodes =
    let master = choose_node is_master [] nodes in
    let worker = choose_node is_worker [] nodes in
    do
      nodes' ← set_debug master nodes
      nodes'' ← set_debug worker nodes'
      ok (nodes'', debug_names nodes'')

-- `AttachDebugPodsToNodes`
unfoldable pub attach_debug_pods_to_nodes : Containers → Nodes → Nodes
attach_debug_pods_to_nodes [] nodes = nodes
attach_debug_pods_to_nodes ((id, c) ∷ containers) nodes =
    let name = c.container_configuration.identifier.node_name in
    attach_debug_pods_to_nodes containers (elim (lookup name nodes) [
      | none ↦ nodes
      | some n ↦ insert name (record n { oc = c.oc }) nodes
    ])

-- The count of `discoverNodes`.
unfoldable pub expected_debug_pods : Nodes → ℕ
expected_debug_pods [] = 0
expected_debug_pods ((name, n) ∷ nodes) = (if n.debug then 1 else 0) + expected_debug_pods nodes
