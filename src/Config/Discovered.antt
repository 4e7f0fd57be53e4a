-- ===== src/Config/Discovered.antt =====
-- pkg/config/config.go: what a discovery that returns writes into the test environment.
use test_network_function.Prelude.{◌≡◌, Bytes, List, ◌++◌, false, ok, >>=-eq-ok, arith}
use test_network_function.Config.Nodes.{create_nodes, label_nodes}
use test_network_function.Config.Environment.{
  Discovery, TestEnvironment, Cluster, or_halt, add_debug_label,
}
use test_network_function.Config.Refresh.{
  labels_or_halt, run_commands, create_debug_containers, find_debug_containers, debug_pods,
  discover_nodes, or_stop, find_containers, with_found, with_crds, name_spaces, do_autodiscover,
}

-- What discovery of the nodes leaves alone.
record Keeps (env env' : TestEnvironment) : Type 0 where
  names : env'.name_spaces_under_test ≡ env.name_spaces_under_test
  targets : env'.config.target_name_spaces ≡ env.config.target_name_spaces
  target : env'.config.test_target ≡ env.config.test_target
  pods : env'.pods_under_test ≡ env.pods_under_test
  deployments : env'.deployments_under_test ≡ env.deployments_under_test
  operators : env'.operators_under_test ≡ env.operators_under_test
  loaded : env'.loaded ≡ env.loaded

create_debug_containers-Keeps :
    (d : Discovery) (env env' : TestEnvironment) (cluster cluster' : Cluster)
    → create_debug_containers d env cluster ≡ ok (env', cluster')
    → Keeps env env'
unfolding create_debug_containers
create_debug_containers-Keeps d env env' cluster cluster' h = ground arith

find_debug_containers-Keeps :
    (d : Discovery) (env env' : TestEnvironment) (cluster cluster' : Cluster)
    → find_debug_containers d env cluster ≡ ok (env', cluster')
    → Keeps env env'
unfolding find_debug_containers
find_debug_containers-Keeps d env env' cluster cluster' h =
    ground (arith, create_debug_containers-Keeps d env env' cluster cluster')

debug_pods-Keeps :
    (d : Discovery) (env env' : TestEnvironment) (cluster cluster' : Cluster)
    → debug_pods d env cluster ≡ ok (env', cluster')
    → Keeps env env'
unfolding debug_pods
debug_pods-Keeps d env env' cluster cluster' h =
    ground (arith, find_debug_containers-Keeps d env env' cluster cluster')

discover_nodes-Keeps :
    (d : Discovery) (env env' : TestEnvironment) (cluster cluster' : Cluster)
    → discover_nodes d env cluster ≡ ok (env', cluster')
    → Keeps env env'
unfolding discover_nodes
discover_nodes-Keeps d env env' cluster cluster' h =
    let created = create_nodes env.config.test_target.nodes env.containers_under_test in
    let unlabelled : TestEnvironment = record env { nodes_under_test = created } in
    let ((nodes, names), e, rest) =
      >>=-eq-ok (or_halt (or_stop (label_nodes created)) unlabelled cluster) _ h in
    let labelled : TestEnvironment = record env { nodes_under_test = nodes } in
    let (after, labelling, next) =
      >>=-eq-ok
        (labels_or_halt (run_commands add_debug_label d.label_is_added names cluster) labelled) _
        rest in
    let ((found, later), e', rest') = >>=-eq-ok (debug_pods d labelled after) _ next in
    ground (arith, debug_pods-Keeps d labelled found after later e')

-- What the lists of the environment hold after a discovery.
pub record IsDiscovered (names : List Bytes) (env : TestEnvironment) : Type 0 where
  pub in_scope : env.name_spaces_under_test ≡ names
  pub pods : env.pods_under_test ≡ env.config.test_target.pods_under_test
  pub deployments : env.deployments_under_test ≡ env.config.test_target.deployments_under_test
  pub operators : env.operators_under_test ≡ env.config.test_target.operators
  pub fresh : env.needs_refresh ≡ false

pub do_autodiscover-IsDiscovered :
    (d : Discovery) (env env' : TestEnvironment) (cluster cluster' : Cluster)
    → do_autodiscover d env cluster ≡ ok (env', cluster')
    → IsDiscovered (env.name_spaces_under_test ++ env.config.target_name_spaces) env'
      × (env'.config.target_name_spaces ≡ env.config.target_name_spaces)
      × (env'.loaded ≡ env.loaded)
unfolding do_autodiscover with_found name_spaces
do_autodiscover-IsDiscovered d env env' cluster cluster' h =
    let ((found, started), e, rest) = >>=-eq-ok (find_containers d env cluster) _ h in
    let whole = with_found env found in
    let (crds, named, next) =
      >>=-eq-ok (or_halt (d.find_test_crd_names env.config.crd_filters) whole started) _ rest in
    let ((after, last), e', rest') =
      >>=-eq-ok (discover_nodes d (with_crds crds whole) started) _ next in
    ground (arith, discover_nodes-Keeps d (with_crds crds whole) after started last e')
