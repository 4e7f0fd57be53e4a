-- ===== src/Config/Refresh.antt =====
-- pkg/config/config.go: discovery, reset and refresh of the test environment.
use test_network_function.Prelude.{
  Bytes, Bool, codes, List, [], ◌∷◌, ◌++◌, true, false, none, some, Result, ok, Panic, err, ◌>>=◌,
  if◌then◌else◌,
}
use test_network_function.Config.{no_target, no_partner, container_eq, TestTarget, TestPartner}
use test_network_function.Config.Nodes.{
  Containers, create_nodes, label_nodes, expected_debug_pods, attach_debug_pods_to_nodes,
  debug_names,
}
use test_network_function.Config.Environment.{
  Discovery, Excluded, TestEnvironment, Cluster, Stop, fatal, expectation_failed, panicked, Halted,
  or_halt, containers_or_halt, LabelCommand, add_debug_label, delete_debug_label, create_containers,
  exclude, exclude_configs, load_config_from_file, get_configuration_file_path_from_environment,
}
use test_network_function.Config.Sessions.{reset_oc}

-- The loops of `labelNodes` and of `reset` over the nodes with a debug pod; a command that fails
-- stops them.
unfoldable pub run_commands :
    (Bytes → LabelCommand) → (Bytes → Bool) → List Bytes → Cluster → Result (Stop × Cluster) Cluster
run_commands f succeeds [] cluster = ok cluster
run_commands f succeeds (name ∷ names) cluster =
    let cluster' : Cluster = record cluster { commands = cluster.commands ++ f name ∷ [] } in
    let rest = run_commands f succeeds names cluster' in
    if succeeds name then rest else err (expectation_failed, cluster')

unfoldable pub labels_or_halt :
    Result (Stop × Cluster) Cluster → TestEnvironment → Result Halted Cluster
labels_or_halt (ok cluster) env = ok cluster
labels_or_halt (err (e, cluster)) env =
    err (record { why = e; environment = env; cluster = cluster })

abbrev pub with_partner : TestPartner → TestEnvironment → TestEnvironment
with_partner partner env = record env { config = record env.config { partner = partner } }

-- The call of `FindDebugPods` and what follows it.
unfoldable pub create_debug_containers :
    Discovery → TestEnvironment → Cluster → Result Halted (TestEnvironment × Cluster)
unfolding exclude_configs create_containers or_halt containers_or_halt
create_debug_containers d env cluster = do
  partner ←
      or_halt (d.find_debug_pods env.config.partner)
        (with_partner (d.partner_left env.config.partner) env) cluster
  let excluded = exclude_configs partner.containers_debug_list env.containers_to_exclude
  (created, excluded', cluster') ←
      containers_or_halt (create_containers d partner.containers_debug_list [] excluded cluster)
        (with_partner partner env)
  ok (
    record env {
      config = record env.config { partner = partner };
      containers_to_exclude = excluded';
      debug_containers = created;
    },
    cluster',
  )

-- On an OpenShift cluster, the debug pods have to be ready.
unfoldable pub find_debug_containers :
    Discovery → TestEnvironment → Cluster → Result Halted (TestEnvironment × Cluster)
unfolding create_debug_containers expected_debug_pods
find_debug_containers d env cluster =
    if d.debug_daemonset_is_ready (expected_debug_pods env.nodes_under_test)
    then create_debug_containers d env cluster
    else err (record { why = expectation_failed; environment = env; cluster = cluster })

-- On another cluster there are no debug pods.
unfoldable pub debug_pods :
    Discovery → TestEnvironment → Cluster → Result Halted (TestEnvironment × Cluster)
unfolding find_debug_containers
debug_pods d env cluster =
    if d.is_non_ocp_cluster then ok (env, cluster) else find_debug_containers d env cluster

-- A panic of the modelled code stops the call.
unfoldable pub or_stop {ℓ} : {A : Type ℓ} → Result Panic A → Result Stop A
or_stop (ok a) = ok a
or_stop (err p) = err (panicked p)

unfoldable pub discover_nodes :
    Discovery → TestEnvironment → Cluster → Result Halted (TestEnvironment × Cluster)
unfolding create_nodes label_nodes run_commands labels_or_halt debug_pods attach_debug_pods_to_nodes
    or_stop or_halt
discover_nodes d env cluster = do
  let created = create_nodes env.config.test_target.nodes env.containers_under_test
  (nodes, names) ←
      or_halt (or_stop (label_nodes created)) (record env { nodes_under_test = created }) cluster
  let labelled = record env { nodes_under_test = nodes }
  cluster' ← labels_or_halt (run_commands add_debug_label d.label_is_added names cluster) labelled
  (env', cluster'') ← debug_pods d labelled cluster'
  ok (
    record env' {
      nodes_under_test = attach_debug_pods_to_nodes env'.debug_containers env'.nodes_under_test;
    },
    cluster'',
  )

-- The namespaces and the target of `doAutodiscover`.
unfoldable pub name_spaces : TestEnvironment → List Bytes
name_spaces env = env.name_spaces_under_test ++ env.config.target_name_spaces

unfoldable pub target_of : Discovery → TestEnvironment → Result Stop TestTarget
unfolding name_spaces
target_of d env =
    if d.perform_auto_discovery
    then d.find_test_target env.config.target_pod_labels env.config.test_target (name_spaces env)
    else ok env.config.test_target

-- What `doAutodiscover` has found before it comes to the nodes.
pub record Found : Type 0 where
  pub target : TestTarget
  pub containers : Containers
  pub partner : TestPartner
  pub partners : Containers
  pub excluded : Excluded

-- The environment with the names and a target.
unfoldable pub with_target : TestTarget → TestEnvironment → TestEnvironment
unfolding name_spaces
with_target target env = record env {
  name_spaces_under_test = name_spaces env;
  config = record env.config { test_target = target };
}

-- The environment with the first containers and a partner, where the second ones cannot be created.
unfoldable pub with_containers :
    TestTarget → Containers → TestPartner → TestEnvironment → TestEnvironment
unfolding name_spaces
with_containers target containers partner env = record env {
  name_spaces_under_test = name_spaces env;
  config = record env.config { test_target = target; partner = partner };
  containers_under_test = containers;
  pods_under_test = target.pods_under_test;
}

abbrev pub with_exclusions : Excluded → TestEnvironment → TestEnvironment
with_exclusions excluded env = record env { containers_to_exclude = excluded }

unfoldable pub find_containers :
    Discovery → TestEnvironment → Cluster → Result Halted (Found × Cluster)
unfolding target_of exclude exclude_configs create_containers or_halt containers_or_halt with_target
    with_containers
find_containers d env cluster = do
  target ←
      or_halt (target_of d env)
        (with_target
          (d.target_left env.config.target_pod_labels env.config.test_target (name_spaces env)) env)
        cluster
  let configured = exclude target.exclude_containers_from_connectivity_tests []
  (containers, tested, started) ←
      containers_or_halt (create_containers d target.container_config_list [] configured cluster)
        (with_target target env)
  let with_debug = exclude_configs env.config.partner.containers_debug_list tested
  partner ←
      or_halt (d.find_test_partner env.config.partner (codes "default"))
        (with_exclusions with_debug (with_containers target containers env.config.partner env))
        started
  (partners, excluded, cluster') ←
      containers_or_halt (create_containers d partner.container_config_list [] with_debug started)
        (with_containers target containers partner env)
  ok (
    record {
      target = target;
      containers = containers;
      partner = partner;
      partners = partners;
      excluded = excluded;
    },
    cluster',
  )

-- The assignments of `doAutodiscover` before it comes to the nodes.
unfoldable pub with_found : TestEnvironment → Found → TestEnvironment
unfolding name_spaces
with_found env found = record env {
  config = record env.config { test_target = found.target; partner = found.partner };
  name_spaces_under_test = name_spaces env;
  containers_under_test = found.containers;
  pods_under_test = found.target.pods_under_test;
  partner_containers = found.partners;
  containers_to_exclude = found.excluded;
  test_orchestrator = some found.partner.test_orchestrator_id;
  deployments_under_test = found.target.deployments_under_test;
  operators_under_test = found.target.operators;
}

abbrev pub with_crds : List Bytes → TestEnvironment → TestEnvironment
with_crds crds env = record env { crd_names = crds }

unfoldable pub do_autodiscover :
    Discovery → TestEnvironment → Cluster → Result Halted (TestEnvironment × Cluster)
unfolding find_containers with_found discover_nodes or_halt
do_autodiscover d env cluster = do
  (found, started) ← find_containers d env cluster
  crds ← or_halt (d.find_test_crd_names env.config.crd_filters) (with_found env found) started
  (env', cluster') ← discover_nodes d (with_crds crds (with_found env found)) started
  ok (record env' { needs_refresh = false }, cluster')

-- `TestEnvironment.reset`
unfoldable pub reset :
    Discovery → TestEnvironment → Cluster → Result Halted (TestEnvironment × Cluster)
unfolding reset_oc run_commands labels_or_halt
reset d env cluster = do
  let (closed, cluster') = reset_oc env cluster
  let cleared = record closed {
    config = record closed.config { partner = no_partner; test_target = no_target };
    test_orchestrator = none;
  }
  cluster'' ←
      labels_or_halt
        (run_commands delete_debug_label d.label_is_deleted (debug_names closed.nodes_under_test)
          cluster')
        cleared
  ok (
    record cleared { name_spaces_under_test = []; nodes_under_test = []; debug_containers = [] },
    cluster'',
  )

unfoldable pub load_and_refresh :
    Discovery → TestEnvironment → Cluster → Result Halted (TestEnvironment × Cluster)
unfolding load_config_from_file do_autodiscover reset get_configuration_file_path_from_environment
load_and_refresh d env cluster =
    if env.loaded
    then (if env.needs_refresh
        then (do (env', cluster') ← reset d env cluster; do_autodiscover d env' cluster')
        else ok (env, cluster))
    else (let (env', read) =
          load_config_from_file d (get_configuration_file_path_from_environment d) env in
        if read
        then do_autodiscover d env' cluster
        else err (record { why = fatal; environment = env'; cluster = cluster }))

unfoldable pub set_needs_refresh : TestEnvironment → TestEnvironment
set_needs_refresh env = record env { needs_refresh = true }
