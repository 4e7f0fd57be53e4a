-- ===== src/Autodiscover.antt =====
-- pkg/config/autodiscover: the queries of the cluster and the resources that they return.
--
-- What a command prints and what the JSON decoder makes of it are the fields of `Kube`.
pub mod Pods
pub mod Targets
pub mod Selection
pub mod NodeList
pub mod Partners
pub mod Faults
pub mod Gaps
use test_network_function.Prelude.{
  ℕ, Bytes, codes, str_eq, Map, List, [], ◌∷◌, ◌++◌, Bool, Option, Result, ok, err, Panic,
  failed_expectation, if◌then◌else◌,
}
use test_network_function.Prelude.Int.{ℤ}
use test_network_function.Config.{Label}

-- `PodResource`; the labels are not read.
pub record PodResource : Type 0 where
  pub name : Bytes
  pub namespace : Bytes
  pub deletion_timestamp : Bytes
  pub annotations : Map Bytes Bytes
  pub service_account : Bytes
  pub containers : List Bytes
  pub node_name : Bytes
  pub phase : Bytes

-- `CSVResource`
pub record CsvResource : Type 0 where
  pub name : Bytes
  pub namespace : Bytes
  pub annotations : Map Bytes Bytes

pub record DeploymentResource : Type 0 where
  pub name : Bytes
  pub namespace : Bytes
  pub replicas : ℤ

pub record CniNetworkInterface : Type 0 where
  pub interface : Bytes
  pub ips : List Bytes
  pub default : Bool

-- Whether `ExecuteCommand` succeeds for a command, as it panics otherwise, the output that it then
-- returns, the decoder at each type (`none` for an error, and for a string or a
-- list of strings also the value that the decoder leaves), `%q` of package `fmt`, and the names of
-- the tests in the configuration file.
pub record Kube : Type 0 where
  pub succeeds : Bytes → Bool
  pub execute : Bytes → Bytes
  pub unmarshal_pods : Bytes → Option (List PodResource)
  pub unmarshal_csvs : Bytes → Option (List CsvResource)
  pub unmarshal_deployments : Bytes → Option (List DeploymentResource)
  pub unmarshal_interfaces : Bytes → Option (List CniNetworkInterface)
  pub unmarshal_string : Bytes → Bytes × Bool
  pub unmarshal_strings : Bytes → List Bytes × Bool
  pub quote : Bytes → Bytes
  pub configured_pod_tests : List Bytes
  pub configured_operator_tests : List Bytes

abbrev pub tnf_label_prefix : Bytes
tnf_label_prefix = codes "test-network-function.com"

unfoldable pub build_label_name : Bytes → Bytes → Bytes
build_label_name prefix name = if str_eq prefix [] then name else prefix ++ (codes "/" ++ name)

unfoldable pub build_annotation_name : Bytes → Bytes
unfolding build_label_name
build_annotation_name name = build_label_name tnf_label_prefix name

unfoldable pub build_label_query : Label → Bytes
unfolding build_label_name
build_label_query label =
    let full = build_label_name label.prefix label.name in
    if str_eq label.value [] then full else full ++ (codes "=" ++ label.value)

unfoldable pub oc_get_command : Bytes → Bytes → Bytes → Bytes
oc_get_command resource query namespace =
    codes "oc get "
    ++ (resource ++ (codes " -n " ++ (namespace ++ (codes " -o json -l " ++ query))))

unfoldable pub execute_oc_get_command : Kube → Bytes → Bytes → Bytes → Bytes
unfolding oc_get_command
execute_oc_get_command k resource query namespace =
    k.execute (oc_get_command resource query namespace)

unfoldable pub oc_get_all_command : Bytes → Bytes → Bytes
oc_get_all_command resource query =
    codes "oc get " ++ (resource ++ (codes " -A -o json -l " ++ query))

unfoldable pub execute_oc_get_all_command : Kube → Bytes → Bytes → Bytes
unfolding oc_get_all_command
execute_oc_get_all_command k resource query = k.execute (oc_get_all_command resource query)

-- Commands in a row, each of which has to succeed.
unfoldable pub run_all : Kube → List Bytes → Result Panic (Unit {0})
run_all k [] = ok tt
run_all k (command ∷ commands) =
    let rest = run_all k commands in if k.succeeds command then rest else err failed_expectation
