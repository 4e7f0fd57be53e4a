-- ===== src/Tests/Environment.antt =====
-- The test environment and its nodes at concrete clusters.
use test_network_function.Prelude.{
  ◌≡◌, refl, Bytes, codes, bytes_eq, str_eq, lookup, insert, Map, [], ◌∷◌, ◌++◌, true, false, none,
  some, ok, err, nil_dereference,
}
use test_network_function.Tnf.{success}
use test_network_function.Config.{
  ContainerIdentifier, Node, TestConfiguration, no_target, no_partner, no_container, is_master,
  is_worker, master_label, worker_label, container_eq,
}
use test_network_function.Config.Nodes.{
  Oc, Container, Nodes, Containers, create_nodes, label_nodes, debug_names,
}
use test_network_function.Config.Labelling.{IsNodes, Marked, Present, Covered, label_nodes_lem}
use test_network_function.Config.Creation.{with_deployment, hosts, last_named, create_nodes-lookup}
use test_network_function.Config.Environment.{
  Discovery, TestEnvironment, Cluster, Halted, panicked, create_containers,
}
use test_network_function.Config.Sessions.{reset_oc, sessions, orchestrator, held, reset_oc_lem}
use test_network_function.Config.Refresh.{load_and_refresh}
use test_network_function.Config.Freshness.{
  Outcome, initial, start, halt, rest, Reach-IsConsistent, refresh_forgets_target,
}
use test_network_function.Config.Addresses.{AllAddressed, Grows, create_containers-AllAddressed}

-- A configuration with one namespace and one configured exclusion.
abbrev excluded_id : ContainerIdentifier
excluded_id = record {
  namespace = codes "tnf";
  pod_name = codes "p";
  container_name = codes "c";
  node_name = codes "n";
}

abbrev configuration : TestConfiguration
configuration = record {
  target_pod_labels = [];
  target_name_spaces = codes "tnf" ∷ [];
  test_target = record no_target { exclude_containers_from_connectivity_tests = excluded_id ∷ [] };
  partner = no_partner;
  crd_filters = [];
}

-- A cluster without autodiscovery, outside OpenShift.
abbrev quiet : Discovery
quiet = record {
  getenv = λ name. [];
  read_file = λ path. some [];
  unmarshal = λ contents c. (configuration, true);
  perform_auto_discovery = false;
  is_non_ocp_cluster = true;
  find_test_target = λ labels target ns. ok target;
  find_test_partner = λ tp ns. ok tp;
  target_left = λ labels target ns. target;
  find_debug_pods = λ tp. ok tp;
  partner_left = λ tp. tp;
  label_is_added = λ name. true;
  label_is_deleted = λ name. true;
  find_test_crd_names = λ filters. ok [];
  debug_daemonset_is_ready = λ n. true;
  session_starts = λ c. true;
  run_ip_test =
      λ oc dev. record { result = success; failed = false; ipv4_address = codes "10.0.0.1" };
}

abbrev untouched : Cluster
untouched = record { started = 0; closed = []; commands = [] }

abbrev loaded_environment : TestEnvironment
loaded_environment = record initial {
  name_spaces_under_test = codes "tnf" ∷ [];
  containers_to_exclude = (excluded_id, []) ∷ [];
  test_orchestrator = some no_container;
  config = configuration;
  loaded = true;
}

first_load : load_and_refresh quiet initial untouched ≡ ok (loaded_environment, untouched)
unfolding load_and_refresh insert str_eq lookup debug_names
first_load = refl

-- A cluster in which `FindTestTarget` panics.
abbrev faulty : Discovery
faulty = record quiet {
  perform_auto_discovery = true;
  find_test_target = λ labels target ns. err (panicked nil_dereference);
}

-- What the first load leaves there: nothing was excluded yet.
abbrev left : Halted
left = record {
  why = panicked nil_dereference;
  environment = record loaded_environment { containers_to_exclude = []; test_orchestrator = none };
  cluster = untouched;
}

first_load_halts : load_and_refresh faulty initial untouched ≡ err left
unfolding load_and_refresh insert str_eq lookup debug_names
first_load_halts = refl

second_load : load_and_refresh quiet left.environment untouched ≡ ok (left.environment, untouched)
unfolding load_and_refresh
second_load = refl

Reach-IsConsistent_example : Outcome false (left.environment, untouched)
Reach-IsConsistent_example =
    Reach-IsConsistent false (left.environment, untouched)
      (rest quiet (halt faulty left (start untouched) first_load_halts (λ e. cc)) refl second_load)

refresh_forgets_target_example :
    load_and_refresh quiet
      (record loaded_environment {
        needs_refresh = true;
        config = record configuration { test_target = no_target; partner = no_partner };
      })
      untouched
    ≡ load_and_refresh quiet (record loaded_environment { needs_refresh = true }) untouched
refresh_forgets_target_example =
    refresh_forgets_target quiet (record loaded_environment { needs_refresh = true }) untouched
      no_target no_partner refl refl

abbrev node_a : Node
node_a = record { name = codes "a"; labels = master_label ∷ [] }

abbrev node_b : Node
node_b = record { name = codes "b"; labels = worker_label ∷ [] }

abbrev two_nodes : Nodes
two_nodes =
    (
      codes "a",
      record { name = codes "a"; node = node_a; oc = none; deployment = false; debug = false },
    )
    ∷ (
      codes "b",
      record { name = codes "b"; node = node_b; oc = none; deployment = true; debug = true },
    )
    ∷ []

two_nodes-IsNodes : IsNodes two_nodes
unfolding lookup str_eq
two_nodes-IsNodes = (λ e. cc, refl, (λ e. cc, refl, tt))

label_nodes_lem_example :
    (nodes' : Nodes) × (label_nodes two_nodes ≡ ok (nodes', debug_names nodes'))
    × Marked two_nodes nodes'
    × (Present is_master two_nodes → Covered is_master nodes')
    × (Present is_worker two_nodes → Covered is_worker nodes')
label_nodes_lem_example = label_nodes_lem two_nodes two_nodes-IsNodes

abbrev session : Oc
session = record { id = 7; pod = codes "p"; container = codes "c"; namespace = codes "tnf" }

abbrev on_b : Container
on_b = record {
  container_configuration = record {
    identifier = record excluded_id { node_name = codes "b" };
    default_network_device = codes "eth0";
    multus_ip_addresses = [];
  };
  oc = some session;
  default_network_ip_address = codes "10.0.0.1";
  container_identifier = record excluded_id { node_name = codes "b" };
}

abbrev one_container : Containers
one_container = (on_b.container_identifier, on_b) ∷ []

abbrev cluster_nodes : Map Bytes Node
cluster_nodes = (codes "a", node_a) ∷ (codes "b", node_b) ∷ []

create_nodes-lookup_example :
    lookup (codes "b") (create_nodes cluster_nodes one_container)
    ≡ with_deployment (hosts (codes "b") one_container) (last_named (codes "b") cluster_nodes none)
create_nodes-lookup_example = create_nodes-lookup (codes "b") cluster_nodes one_container

abbrev with_sessions : TestEnvironment
with_sessions = record loaded_environment { containers_under_test = one_container }

reset_oc_lem_example :
    ((reset_oc with_sessions untouched).1.closed ≡ untouched.closed ++ sessions with_sessions)
    × (sessions (reset_oc with_sessions untouched).0 ≡ [])
    × (held (orchestrator (reset_oc with_sessions untouched).0) ≡ [])
    × ((reset_oc with_sessions untouched).0.debug_containers ≡ with_sessions.debug_containers)
    × ((reset_oc (reset_oc with_sessions untouched).0 (reset_oc with_sessions untouched).1).1.closed
        ≡ (reset_oc with_sessions untouched).1.closed)
reset_oc_lem_example = reset_oc_lem with_sessions untouched

abbrev created_session : Oc
created_session = record session { id = 0 }

abbrev created_containers : Containers
created_containers = (on_b.container_identifier, record on_b { oc = some created_session }) ∷ []

creation :
    create_containers quiet (on_b.container_configuration ∷ []) [] [] untouched
    ≡ ok (created_containers, [], record untouched { started = 1 })
unfolding create_containers insert lookup
creation = refl

nothing_created : AllAddressed quiet [] []
unfolding lookup
nothing_created j c e = cc

create_containers-AllAddressed_example : Grows [] [] × AllAddressed quiet created_containers []
create_containers-AllAddressed_example =
    create_containers-AllAddressed quiet (on_b.container_configuration ∷ []) [] created_containers
      [] [] untouched (record untouched { started = 1 }) nothing_created creation
