-- ===== src/Config/Environment.antt =====
-- pkg/config/config.go: the test environment, its loading, its refresh and its sessions.
--
-- The singleton and the cluster are explicit states. What the package `autodiscover` finds, the
-- file system and the YAML decoder are the fields of `Discovery`.
use test_network_function.Prelude.{
  ℕ, ◌+◌, Bytes, bytes_eq, codes, str_eq, Map, lookup, insert, List, [], ◌∷◌, Bool, true, false,
  ◌&&◌, not, Option, none, some, Result, ok, err, ◌>>=◌, Panic, if◌then◌else◌,
}
use test_network_function.Prelude.Int.{ℤ, eq_ℤ}
use test_network_function.Tnf.{success}
use test_network_function.Config.{
  Label, ContainerIdentifier, ContainerConfig, Pod, Operator, Deployment, TestTarget, TestPartner,
  TestConfiguration, container_eq,
}
use test_network_function.Config.Nodes.{Oc, Nodes, Containers}

-- A run of the `ipaddr` test: its result, whether it came with an error, and the address.
pub record IpRun : Type 0 where
  pub result : ℤ
  pub failed : Bool
  pub ipv4_address : Bytes

-- What stops a call: `log.Fatalf`, which ends the process, and `log.Panic`, a failed expectation of
-- gomega or another panic, which end the spec.
pub data Stop : Type 0 where
  fatal : Stop
  logged_panic : Stop
  expectation_failed : Stop
  panicked : Panic → Stop

-- The calls that the environment makes.
pub record Discovery : Type 0 where
  pub getenv : Bytes → Bytes
  pub read_file : Bytes → Option Bytes
  -- The configuration after the decoding, and whether it succeeded.
  pub unmarshal : Bytes → TestConfiguration → TestConfiguration × Bool
  pub perform_auto_discovery : Bool
  pub is_non_ocp_cluster : Bool
  pub find_test_target : List Label → TestTarget → List Bytes → Result Stop TestTarget
  pub find_test_partner : TestPartner → Bytes → Result Stop TestPartner
  -- What `FindTestTarget` has written into its target where it stops.
  pub target_left : List Label → TestTarget → List Bytes → TestTarget
  pub find_debug_pods : TestPartner → Result Stop TestPartner
  -- What `FindDebugPods` has written into the partner where it stops.
  pub partner_left : TestPartner → TestPartner
  -- The command of `AddDebugLabel` succeeds for the node.
  pub label_is_added : Bytes → Bool
  -- The command of `DeleteDebugLabel` succeeds for the node.
  pub label_is_deleted : Bytes → Bool
  pub find_test_crd_names : List Bytes → Result Stop (List Bytes)
  pub debug_daemonset_is_ready : ℕ → Bool
  pub session_starts : ContainerIdentifier → Bool
  pub run_ip_test : Oc → Bytes → IpRun

-- The set of the containers that are excluded from connectivity tests.
abbrev pub Excluded : Type 0
Excluded = Map ContainerIdentifier Bytes

pub record TestEnvironment : Type 0 where
  pub containers_under_test : Containers
  pub partner_containers : Containers
  pub debug_containers : Containers
  pub pods_under_test : List Pod
  pub deployments_under_test : List Deployment
  pub operators_under_test : List Operator
  pub name_spaces_under_test : List Bytes
  pub crd_names : List Bytes
  pub nodes_under_test : Nodes
  pub containers_to_exclude : Excluded
  -- The key of the entry of `partner_containers` that it points to, `none` for nil; nil, too, where
  -- there is no such entry.
  pub test_orchestrator : Option ContainerIdentifier
  pub config : TestConfiguration
  pub loaded : Bool
  pub needs_refresh : Bool

-- The sessions that were started, those that were closed, and the commands on node labels.
pub data LabelCommand : Type 0 where
  add_debug_label : Bytes → LabelCommand
  delete_debug_label : Bytes → LabelCommand

pub record Cluster : Type 0 where
  pub started : ℕ
  pub closed : List ℕ
  pub commands : List LabelCommand

-- Where a call stops by a panic, which Ginkgo recovers from, and the state that it leaves.
pub record Halted : Type 0 where
  pub why : Stop
  pub environment : TestEnvironment
  pub cluster : Cluster

unfoldable pub or_halt {ℓ} :
    {A : Type ℓ} → Result Stop A → TestEnvironment → Cluster → Result Halted A
or_halt (ok a) env cluster = ok a
or_halt (err e) env cluster = err (record { why = e; environment = env; cluster = cluster })

unfoldable pub get_configuration_file_path_from_environment : Discovery → Bytes
get_configuration_file_path_from_environment d =
    let path = d.getenv (codes "TNF_CONFIGURATION_PATH") in
    if str_eq path [] then codes "tnf_config.yml" else path

-- `loadConfigFromFile`; the Boolean tells whether the error is nil.
unfoldable pub load_config_from_file : Discovery → Bytes → TestEnvironment → TestEnvironment × Bool
load_config_from_file d path env = if env.loaded then (env, false) else elim (d.read_file path) [
  | none ↦ (env, false)
  | some contents ↦
      let read = d.unmarshal contents env.config in
      if read.1
      then (record env { config = read.0; loaded = true }, true)
      else (record env { config = read.0 }, false)
]

-- `getOcSession`: a session with a new identity.
unfoldable pub get_oc_session :
    Discovery → ContainerIdentifier → Cluster → Result Stop (Oc × Cluster)
get_oc_session d c cluster =
    if d.session_starts c
    then ok (
      record {
        id = cluster.started;
        pod = c.pod_name;
        container = c.container_name;
        namespace = c.namespace;
      },
      record cluster { started = cluster.started + 1 },
    )
    else err expectation_failed

-- `none` for an error.
unfoldable pub get_container_default_network_ip_address : Discovery → Oc → Bytes → Option Bytes
get_container_default_network_ip_address d oc dev =
    let test = d.run_ip_test oc dev in
    if eq_ℤ test.result success && not test.failed then some test.ipv4_address else none

-- The address of a container, and the excluded containers after it.
unfoldable pub address_of : Discovery → Oc → ContainerConfig → Excluded → Bytes × Excluded
unfolding get_container_default_network_ip_address
address_of d oc c excluded = elim (lookup c.identifier excluded) [
  | some _ ↦ (codes "UNKNOWN", excluded)
  | none ↦ elim (get_container_default_network_ip_address d oc c.default_network_device) [
    | none ↦ ([], insert c.identifier [] excluded)
    | some address ↦ (address, excluded)
  ]
]

unfoldable pub or_kept {ℓ} :
    {A : Type ℓ} → Result Stop A → Excluded → Cluster → Result (Stop × Excluded × Cluster) A
or_kept (ok a) excluded cluster = ok a
or_kept (err e) excluded cluster = err (e, excluded, cluster)

-- The loop of `createContainers`; where it stops, the exclusions and the sessions so far are kept.
unfoldable pub create_containers :
    Discovery
    → List ContainerConfig
    → Containers
    → Excluded
    → Cluster
    → Result (Stop × Excluded × Cluster) (Containers × Excluded × Cluster)
unfolding address_of get_oc_session or_kept
create_containers d [] created excluded cluster = ok (created, excluded, cluster)
create_containers d (c ∷ definitions) created excluded cluster = do
  (oc, cluster') ← or_kept (get_oc_session d c.identifier cluster) excluded cluster
  let found = address_of d oc c excluded
  create_containers d definitions
      (insert c.identifier
        (record {
          container_configuration = c;
          oc = some oc;
          default_network_ip_address = found.0;
          container_identifier = c.identifier;
        })
        created)
      found.1 cluster'

unfoldable pub containers_or_halt {ℓ} :
    {A : Type ℓ} → Result (Stop × Excluded × Cluster) A → TestEnvironment → Result Halted A
containers_or_halt (ok a) env = ok a
containers_or_halt (err (e, excluded, cluster)) env = err (record {
  why = e;
  environment = record env { containers_to_exclude = excluded };
  cluster = cluster;
})

unfoldable pub exclude : List ContainerIdentifier → Excluded → Excluded
exclude [] excluded = excluded
exclude (c ∷ cs) excluded = exclude cs (insert c [] excluded)

unfoldable pub exclude_configs : List ContainerConfig → Excluded → Excluded
exclude_configs [] excluded = excluded
exclude_configs (c ∷ cs) excluded = exclude_configs cs (insert c.identifier [] excluded)
