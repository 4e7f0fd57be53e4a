-- ===== src/Autodiscover/Partners.antt =====
-- pkg/config/autodiscover: the test partner and the debug pods.
use test_network_function.Prelude.{
  ℕ, Bytes, codes, str_eq, List, [], ◌∷◌, ◌++◌, Bool, true, false, ◌&&◌, Option, none, some, Result,
  ok, err, ◌>>=◌, ◌≡◌, ◌↔◌, arith, Panic, index_out_of_range, if◌then◌else◌,
}
use test_network_function.Prelude.Int.{pos, eq_ℤ}
use test_network_function.Handlers.DaemonSet.{Status}
use test_network_function.Config.{
  Label, ContainerIdentifier, ContainerConfig, TestTarget, TestPartner, TestConfiguration,
}
use test_network_function.Config.Nodes.{Oc}
use test_network_function.Config.Refresh.{or_stop}
use test_network_function.Autodiscover.Targets.{find_test_target, find_test_crd_names}
use test_network_function.Autodiscover.NodeList.{get_nodes_list}
use test_network_function.Config.Environment.{Stop, logged_panic, Discovery, IpRun}
use test_network_function.Autodiscover.{
  PodResource, Kube, tnf_label_prefix, build_label_query, oc_get_command, run_all,
}
use test_network_function.Autodiscover.Pods.{
  get_container_by_label_by_namespace, get_pods_by_label_by_namespace,
  build_containers_from_pod_resource,
}

abbrev pub orchestrator_label : Label
orchestrator_label = record {
  prefix = tnf_label_prefix;
  name = codes "generic";
  value = codes "orchestrator";
}

-- `FindTestPartner`
unfoldable pub find_test_partner : Kube → TestPartner → Bytes → Result Panic TestPartner
unfolding get_container_by_label_by_namespace oc_get_command build_label_query run_all
find_test_partner k tp namespace =
    if str_eq tp.test_orchestrator_id.container_name []
    then (do
      _ ←
          run_all k
            (oc_get_command (codes "pods") (build_label_query orchestrator_label) namespace ∷ [])
      ok (elim (get_container_by_label_by_namespace k orchestrator_label namespace) [
        | none ↦ tp
        | some orchestrator ↦ record tp {
          container_config_list = tp.container_config_list ++ orchestrator ∷ [];
          test_orchestrator_id = orchestrator.identifier;
        }
      ]))
    else ok tp

-- The first container of each pod; a pod without containers is a panic.
unfoldable pub first_containers : Kube → List PodResource → Result Panic (List ContainerConfig)
unfolding build_containers_from_pod_resource
first_containers k [] = ok []
first_containers k (pod ∷ pods) = elim (build_containers_from_pod_resource k pod) [
  | [] ↦ err index_out_of_range
  | c ∷ _ ↦ do cs ← first_containers k pods; ok (c ∷ cs)
]

abbrev pub debug_label : Label
debug_label = record {
  prefix = [];
  name = codes "test-network-function.com/app";
  value = codes "debug";
}

-- `FindDebugPods`
unfoldable pub find_debug_pods : Kube → TestPartner → Result Stop TestPartner
unfolding get_pods_by_label_by_namespace first_containers or_stop oc_get_command build_label_query
    run_all
find_debug_pods k tp = do
  _ ← or_stop (
      run_all k
        (oc_get_command (codes "pods") (build_label_query debug_label) (codes "default") ∷ []))
  elim (get_pods_by_label_by_namespace k debug_label (codes "default")) [
    | none ↦ err logged_panic
    | some pods ↦ elim pods [
      | [] ↦ err logged_panic
      | pod ∷ others ↦ do
        found ← or_stop (first_containers k (pod ∷ others))
        ok (record tp { containers_debug_list = tp.containers_debug_list ++ found })
    ]
  ]

-- `checkDebugPodsReadiness`, from the status that the daemon set test reports, `none` when the test
-- cannot be made or fails.
unfoldable pub check_debug_pods_readiness : ℕ → Option Status → Bool
check_debug_pods_readiness expected none = false
check_debug_pods_readiness expected (some status) =
    eq_ℤ (pos expected) status.desired
    && eq_ℤ status.desired status.current
    && eq_ℤ status.current status.available
    && eq_ℤ status.available status.ready
    && eq_ℤ status.misscheduled (pos 0)

-- The readiness test accepts a daemon set exactly when all its pods are there and none elsewhere.
pub check_debug_pods_readiness_iff :
    (expected : ℕ) (status : Status)
    → (check_debug_pods_readiness expected (some status) ≡ true) ↔ (
        (status.desired ≡ pos expected)
        × (status.current ≡ pos expected)
        × (status.available ≡ pos expected)
        × (status.ready ≡ pos expected)
        × (status.misscheduled ≡ pos 0))
unfolding check_debug_pods_readiness
check_debug_pods_readiness_iff expected status = ground arith

-- What the environment takes from the packages that it calls, with the cluster as it is: the
-- configuration file, the variables, the queries, the names of the nodes, what a call that stops has
-- written, the commands on labels and the status of the debug daemon set.
unfoldable pub discovery :
    Kube
    → (Bytes → Bytes)
    → (Bytes → Option Bytes)
    → (Bytes → TestConfiguration → TestConfiguration × Bool)
    → (Bool × Bool)
    → Result Panic (Option (List Bytes) × Option (List Bytes))
    → (List Label → TestTarget → List Bytes → TestTarget)
    → (TestPartner → TestPartner)
    → (Bytes → Bool)
    → Option Status
    → (ContainerIdentifier → Bool)
    → (Oc → Bytes → IpRun)
    → Discovery
unfolding find_test_target find_test_partner find_debug_pods find_test_crd_names
    check_debug_pods_readiness get_nodes_list or_stop
discovery k env file decode (auto, non_ocp) names target_left partner_left labels status starts ip =
    record {
      getenv = env;
      read_file = file;
      unmarshal = decode;
      perform_auto_discovery = auto;
      is_non_ocp_cluster = non_ocp;
      find_test_target = λ pods target ns.
          or_stop (
            find_test_target k (do read ← names; ok (get_nodes_list read.0 read.1)) pods target ns);
      target_left = target_left;
      partner_left = partner_left;
      label_is_added = labels;
      label_is_deleted = labels;
      find_test_partner = λ tp ns. or_stop (find_test_partner k tp ns);
      find_debug_pods = find_debug_pods k;
      find_test_crd_names = λ filters. or_stop (find_test_crd_names k filters);
      debug_daemonset_is_ready = λ expected. check_debug_pods_readiness expected status;
      session_starts = starts;
      run_ip_test = ip;
    }
