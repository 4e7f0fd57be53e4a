-- ===== src/Handlers/Placements.antt =====
-- pkg/tnf/handlers/deploymentsnodes/deploymentsnodes.go: which deployments have pods on which node.
use test_network_function.Prelude.{
  ℕ, ◌≡◌, ◌≢◌, ◌↔◌, ◌⊎◌, inl, inr, Bytes, codes, str_eq, str_eq_iff, bytes_eq, Map, lookup, insert,
  lookup-insert, List, [], ◌∷◌, drop, Bool, true, false, Bool-cases, Option, none, some,
  Option-cases, Result, ok, Panic, arith, if◌then◌else◌,
}
use test_network_function.Prelude.Int.{ℤ}
use test_network_function.Strings.{split, fields, trim, trim_space}
use test_network_function.Reel.{newline, Step, Handler}
use test_network_function.Tnf.{error, success}
use test_network_function.Generic.{Regexp}
use test_network_function.Handlers.{single_shot}

-- `NodesMap`: the node's name, then the deployment's.
abbrev pub NodesMap : Type 0
NodesMap = Map Bytes (Map Bytes Bool)

pub record DeploymentsNodes : Type 0 where
  pub nodes : NodesMap
  pub result : ℤ
  pub timeout : ℕ
  pub args : List Bytes

unfoldable pub new_deployments_nodes : ℕ → Bytes → DeploymentsNodes
new_deployments_nodes timeout namespace = record {
  nodes = [];
  result = error;
  timeout = timeout;
  args =
      codes "oc"
      ∷ codes "-n"
      ∷ namespace
      ∷ codes "get"
      ∷ codes "pods"
      ∷ codes "-l"
      ∷ codes "pod-template-hash"
      ∷ codes "-o"
      ∷ codes "custom-columns=NAME:.metadata.name,NODE:.spec.nodeName"
      ∷ [];
}

unfoldable pub deployments_nodes_first : DeploymentsNodes → Step
deployments_nodes_first dn = record {
  execute = [];
  expect = codes "(?s).+" ∷ [];
  timeout = dn.timeout;
}

abbrev pub pod_name_regex : Bytes
pod_name_regex = codes "(.+)-[0-9a-z]+-[0-9a-z]+$"

-- The part of the two groups that is the deployment.
abbrev pub deployment_group : List Bytes → Bytes
deployment_group (all ∷ deployment ∷ []) = deployment
deployment_group _ = []

unfoldable pub extract_deployment : Regexp → Bytes → Bytes
extract_deployment re pod_name = deployment_group (re.find_string_submatch pod_name_regex pod_name)

-- The map of the node, which is added if it is not there.
unfoldable pub add_node : Bytes → NodesMap → NodesMap
add_node node_name nodes = elim (lookup node_name nodes) [
  | none ↦ insert node_name [] nodes
  | some _ ↦ nodes
]

abbrev pub deployments_on : Bytes → NodesMap → Map Bytes Bool
deployments_on node_name nodes = elim (lookup node_name nodes) [ none ↦ [] | some m ↦ m ]

-- `node[deploymentName] = true`, where the node's map is shared with `nodes`.
unfoldable pub add_deployment : Bytes → Bytes → NodesMap → NodesMap
add_deployment node_name deployment nodes =
    insert node_name (insert deployment true (deployments_on node_name nodes)) nodes

-- The names of the pod and the node, where a line has two words.
abbrev pub pod_and_node : List Bytes → Option (Bytes × Bytes)
pod_and_node (pod_name ∷ node_name ∷ []) = some (pod_name, node_name)
pod_and_node _ = none

module _ (re : Regexp) where
  -- The loop over the lines; false when it returns.
  unfoldable pub read_pods : List Bytes → NodesMap → NodesMap × Bool
  unfolding add_node add_deployment
  read_pods [] nodes = (nodes, true)
  read_pods (line ∷ lines) nodes = elim (str_eq (trim_space line) []) [
    | true ↦ read_pods lines nodes
    | false ↦ elim (pod_and_node (fields (trim_space line))) [
      | none ↦ (nodes, false)
      | some (pod_name, node_name) ↦ elim (str_eq (extract_deployment re pod_name) []) [
        | true ↦ (add_node node_name nodes, false)
        | false ↦
            read_pods lines
              (add_deployment node_name (extract_deployment re pod_name) (add_node node_name nodes))
      ]
    ]
  ]

  unfoldable pub deployments_nodes_match :
      Bytes → Bytes → Bytes → DeploymentsNodes → Result Panic DeploymentsNodes
  unfolding read_pods
  deployments_nodes_match pattern before m dn =
      let read = read_pods (drop 1 (split (trim newline m) (newline ∷ []))) dn.nodes in
      if read.1
      then ok (record dn { nodes = read.0; result = success })
      else ok (record dn { nodes = read.0 })

  unfoldable pub deployments_nodes_handler : Handler DeploymentsNodes
  unfolding deployments_nodes_match deployments_nodes_first single_shot
  deployments_nodes_handler = single_shot deployments_nodes_first deployments_nodes_match

  -- A line that is not blank has a pod of the deployment on the node.
  abbrev pub IsPlaced : Bytes → Bytes → List Bytes → Type 0
  IsPlaced node deployment [] = ⊥
  IsPlaced node deployment (line ∷ lines) =
      ((trim_space line ≢ [])
        × ((pod_name : Bytes) × (pod_and_node (fields (trim_space line)) ≡ some (pod_name, node))
            × (extract_deployment re pod_name ≡ deployment)))
      ⊎ IsPlaced node deployment lines

-- The map has the deployment on the node.
abbrev pub IsRecorded : Bytes → Bytes → NodesMap → Type 0
IsRecorded node deployment nodes = lookup deployment (deployments_on node nodes) ≡ some true

add_node-same :
    (n node : Bytes) (nodes : NodesMap)
    → deployments_on n (add_node node nodes) ≡ deployments_on n nodes
unfolding add_node
add_node-same n node nodes = ground (arith, lookup-insert node n [] nodes, str_eq_iff node n)

deployments_on-add :
    (n node d : Bytes) (nodes : NodesMap)
    → deployments_on n (add_deployment node d nodes) ≡ (
        if str_eq node n then insert d true (deployments_on node nodes) else deployments_on n nodes)
unfolding add_deployment
deployments_on-add n node d nodes =
    ground (arith, lookup-insert node n (insert d true (deployments_on node nodes)) nodes)

added_iff :
    (n e node d : Bytes) (nodes : NodesMap)
    → IsRecorded n e (add_deployment node d (add_node node nodes))
      ↔ (((node ≡ n) × (d ≡ e)) ⊎ IsRecorded n e nodes)
added_iff n e node d nodes = ground (
  arith,
  deployments_on-add n node d (add_node node nodes),
  add_node-same n node nodes,
  add_node-same node node nodes,
  str_eq_iff node n,
  str_eq_iff d e,
  lookup-insert d e true (deployments_on node nodes),
)

-- The first line's part of `IsPlaced`, for a line of two words.
head_iff :
    (re : Regexp) (n e line p k : Bytes)
    → str_eq (trim_space line) [] ≡ false
    → pod_and_node (fields (trim_space line)) ≡ some (p, k)
    → ((trim_space line ≢ [])
        × ((pod_name : Bytes) × (pod_and_node (fields (trim_space line)) ≡ some (pod_name, n))
            × (extract_deployment re pod_name ≡ e)))
      ↔ ((k ≡ n) × (extract_deployment re p ≡ e))
head_iff re n e line p k full words = (there, back)
  where
    there :
        (trim_space line ≢ [])
          × ((pod_name : Bytes) × (pod_and_node (fields (trim_space line)) ≡ some (pod_name, n))
              × (extract_deployment re pod_name ≡ e))
        → (k ≡ n) × (extract_deployment re p ≡ e)
    there (f, (p', w, d)) = (ground arith, ground arith)

    back :
        (k ≡ n) × (extract_deployment re p ≡ e)
        → (trim_space line ≢ [])
          × ((pod_name : Bytes) × (pod_and_node (fields (trim_space line)) ≡ some (pod_name, n))
              × (extract_deployment re pod_name ≡ e))
    back (same, d) = (ground (arith, str_eq_iff (trim_space line) []), (p, cc, d))

read_pods_iff :
    (re : Regexp) (n e : Bytes) (lines : List Bytes) (nodes : NodesMap)
    → (read_pods re lines nodes).1 ≡ true
    → IsRecorded n e (read_pods re lines nodes).0 ↔ (IsPlaced re n e lines ⊎ IsRecorded n e nodes)
unfolding read_pods
read_pods_iff re n e [] nodes h = ground arith
read_pods_iff re n e (line ∷ lines) nodes h = elim (Bool-cases (str_eq (trim_space line) [])) [
  | inl blank ↦
      let later = read_pods_iff re n e lines nodes (ground arith) in
      (λ r. ground (arith, later), λ r. ground (arith, later, str_eq_iff (trim_space line) []))
  | inr full ↦ elim (Option-cases (pod_and_node (fields (trim_space line)))) [
    | inl none_there ↦ absurd (ground arith)
    | inr ((p, k), words) ↦ elim (Bool-cases (str_eq (extract_deployment re p) [])) [
      | inl unnamed ↦ absurd (ground arith)
      | inr named ↦
          let added = add_deployment k (extract_deployment re p) (add_node k nodes) in
          let later = read_pods_iff re n e lines added (ground arith) in
          ground (
            arith,
            later,
            added_iff n e k (extract_deployment re p) nodes,
            head_iff re n e line p k full words,
          )
    ]
  ]
]

-- When the match gives SUCCESS, the map of a handler that was new has a deployment on a node
-- exactly when some line behind the header is of a pod of the deployment on that node.
pub deployments_nodes_match_iff :
    (re : Regexp) (dn dn' : DeploymentsNodes) (pattern before m node deployment : Bytes)
    → dn.nodes ≡ []
    → dn.result ≡ error
    → deployments_nodes_match re pattern before m dn ≡ ok dn'
    → dn'.result ≡ success
    → IsRecorded node deployment dn'.nodes
      ↔ IsPlaced re node deployment (drop 1 (split (trim newline m) (newline ∷ [])))
unfolding deployments_nodes_match lookup
deployments_nodes_match_iff re dn dn' pattern before m node deployment empty new e passed =
    elim (Bool-cases (read_pods re lines dn.nodes).1) [
      | inr stopped ↦ absurd (ground arith)
      | inl all ↦
          let read = read_pods_iff re node deployment lines dn.nodes all in ground (arith, read)
    ]
  where
    lines : List Bytes
    lines = drop 1 (split (trim newline m) (newline ∷ []))
