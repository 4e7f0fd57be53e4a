-- ===== src/Config.antt =====
-- pkg/config/configsections: what a test configuration holds.
pub mod Nodes
pub mod Labelling
pub mod Creation
pub mod Environment
pub mod Sessions
pub mod Refresh
pub mod Freshness
pub mod Halting
pub mod Discovered
pub mod Addresses
use test_network_function.Prelude.{
  ℕ, Bytes, codes, str_eq, str_eq_iff, Map, List, [], ◌∷◌, Bool, true, false, ◌&&◌, ◌≡◌, ◌↔◌, arith,
  if◌then◌else◌, Eq,
}
use test_network_function.Prelude.Int.{ℤ}

pub record Label : Type 0 where
  pub prefix : Bytes
  pub name : Bytes
  pub value : Bytes

pub record ContainerIdentifier : Type 0 where
  pub namespace : Bytes
  pub pod_name : Bytes
  pub container_name : Bytes
  pub node_name : Bytes

-- The identifier, the network interface and the addresses that are tested separately.
pub record ContainerConfig : Type 0 where
  pub identifier : ContainerIdentifier
  pub default_network_device : Bytes
  pub multus_ip_addresses : List Bytes

pub record Pod : Type 0 where
  pub name : Bytes
  pub namespace : Bytes
  pub service_account : Bytes
  pub container_count : ℕ
  pub tests : List Bytes

pub record Operator : Type 0 where
  pub name : Bytes
  pub namespace : Bytes
  pub tests : List Bytes
  pub subscription_name : Bytes

pub record Hpa : Type 0 where
  pub min_replicas : ℤ
  pub max_replicas : ℤ
  pub hpa_name : Bytes

pub record Deployment : Type 0 where
  pub name : Bytes
  pub namespace : Bytes
  pub replicas : ℤ
  pub hpa : Hpa

pub record Node : Type 0 where
  pub name : Bytes
  pub labels : List Bytes

pub record TestTarget : Type 0 where
  pub deployments_under_test : List Deployment
  pub pods_under_test : List Pod
  pub non_valid_pods : List Pod
  pub container_config_list : List ContainerConfig
  pub exclude_containers_from_connectivity_tests : List ContainerIdentifier
  pub operators : List Operator
  pub nodes : Map Bytes Node

pub record TestPartner : Type 0 where
  pub container_config_list : List ContainerConfig
  pub test_orchestrator_id : ContainerIdentifier
  pub containers_debug_list : List ContainerConfig

-- The fields that discovery reads; the requests to the certification catalogs are left out.
pub record TestConfiguration : Type 0 where
  pub target_pod_labels : List Label
  pub target_name_spaces : List Bytes
  pub test_target : TestTarget
  pub partner : TestPartner
  pub crd_filters : List Bytes

abbrev pub no_container : ContainerIdentifier
no_container = record { namespace = []; pod_name = []; container_name = []; node_name = [] }

abbrev pub no_target : TestTarget
no_target = record {
  deployments_under_test = [];
  pods_under_test = [];
  non_valid_pods = [];
  container_config_list = [];
  exclude_containers_from_connectivity_tests = [];
  operators = [];
  nodes = [];
}

abbrev pub no_partner : TestPartner
no_partner = record {
  container_config_list = [];
  test_orchestrator_id = no_container;
  containers_debug_list = [];
}

abbrev pub no_hpa : Hpa
no_hpa = record { min_replicas = ℤ.pos 0; max_replicas = ℤ.pos 0; hpa_name = [] }

-- `==` on identifiers, which are keys of maps.
abbrev pub same_container : ContainerIdentifier → ContainerIdentifier → Bool
same_container a b =
    str_eq a.namespace b.namespace
    && str_eq a.pod_name b.pod_name
    && str_eq a.container_name b.container_name
    && str_eq a.node_name b.node_name

pub same_container_iff : (a b : ContainerIdentifier) → (same_container a b ≡ true) ↔ (a ≡ b)
same_container_iff a b = ground (
  arith,
  str_eq_iff a.namespace b.namespace,
  str_eq_iff a.pod_name b.pod_name,
  str_eq_iff a.container_name b.container_name,
  str_eq_iff a.node_name b.node_name,
)

instance abbrev pub container_eq : Eq ContainerIdentifier
container_eq = record { beq = same_container; beq_iff = same_container_iff }

-- `WorkerLabel` and `MasterLabel`
abbrev pub worker_label : Bytes
worker_label = codes "node-role.kubernetes.io/worker"

abbrev pub master_label : Bytes
master_label = codes "node-role.kubernetes.io/master"

-- The loop of `IsMaster` and of `IsWorker`.
unfoldable pub has_label : Bytes → List Bytes → Bool
has_label label [] = false
has_label label (t ∷ labels) =
    let later = has_label label labels in if str_eq t label then true else later

unfoldable pub is_master : Node → Bool
unfolding has_label
is_master node = has_label master_label node.labels

unfoldable pub is_worker : Node → Bool
unfolding has_label
is_worker node = has_label worker_label node.labels
