-- ===== src/Tests/Discovery.antt =====
-- Discovery at a concrete cluster.
use test_network_function.Prelude.{
  ◌≡◌, ◌⊎◌, ◌↔◌, refl, Bytes, codes, bytes_eq, lookup, List, [], ◌∷◌, ◌++◌, map, true, false, none,
  some, Result, ok, err, Panic, Map,
}
use test_network_function.Prelude.Int.{pos}
use test_network_function.Config.{Label, Node, TestTarget, no_target}
use test_network_function.Autodiscover.{PodResource, Kube}
use test_network_function.Autodiscover.Pods.{build_pod_under_test, containers_of}
use test_network_function.Autodiscover.Targets.{
  find_test_target, queries, target_deployments_command,
}
use test_network_function.Autodiscover.Selection.{
  found_pods, pods_within, pods_without, find_test_target_lem,
}
use test_network_function.Autodiscover.Faults.{AnyFails, IsUnreadable, find_test_target_panics}
use test_network_function.Autodiscover.Gaps.{AllUnscaled, find_test_target-AllUnscaled}
use test_network_function.Autodiscover.NodeList.{
  get_nodes_list, role_of, role_listed, listed, get_nodes_list_lem,
}

abbrev pod_in : Bytes → PodResource
pod_in ns = record {
  name = codes "p";
  namespace = ns;
  deletion_timestamp = [];
  annotations = [];
  service_account = [];
  containers = codes "c" ∷ [];
  node_name = codes "n";
  phase = codes "Running";
}

-- Each query finds a pod of the namespace tnf and one of another.
abbrev kube : Kube
kube = record {
  succeeds = λ command. true;
  execute = λ command. [];
  unmarshal_pods = λ out. some (pod_in (codes "tnf") ∷ pod_in (codes "x") ∷ []);
  unmarshal_csvs = λ out. some [];
  unmarshal_deployments =
      λ out. some (record { name = codes "d"; namespace = codes "tnf"; replicas = pos 2 } ∷ []);
  unmarshal_interfaces = λ out. none;
  unmarshal_string = λ out. ([], false);
  unmarshal_strings = λ out. ([], false);
  quote = λ s. s;
  configured_pod_tests = [];
  configured_operator_tests = [];
}

abbrev label : Label
label = record { prefix = []; name = codes "app"; value = [] }

abbrev scope : List Bytes
scope = codes "tnf" ∷ []

-- What discovery returns.
abbrev or_nothing : Result Panic TestTarget → TestTarget
or_nothing (ok t) = t
or_nothing (err p) = no_target

abbrev found : TestTarget
unfolding find_test_target
found = or_nothing (find_test_target kube (ok []) (label ∷ []) no_target scope)

discovered : find_test_target kube (ok []) (label ∷ []) no_target scope ≡ ok found
unfolding find_test_target
discovered = refl

find_test_target_lem_example :
    (found.pods_under_test
      ≡ [] ++ map (build_pod_under_test kube) (pods_within scope (found_pods kube (label ∷ []))))
    × (found.container_config_list
        ≡ [] ++ containers_of kube (pods_within scope (found_pods kube (label ∷ []))))
    × (found.non_valid_pods
        ≡ [] ++ map (build_pod_under_test kube) (pods_without scope (found_pods kube (label ∷ []))))
    × (◌≡◌ {A = Result Panic (Map Bytes Node)} (ok []) (ok found.nodes))
find_test_target_lem_example =
    find_test_target_lem kube (ok []) (label ∷ []) no_target found scope discovered

find_test_target-AllUnscaled_example : AllUnscaled found.deployments_under_test
find_test_target-AllUnscaled_example =
    find_test_target-AllUnscaled kube (ok []) (label ∷ []) no_target found scope tt discovered

find_test_target_panics_example :
    ((p : Panic) × (find_test_target kube (ok []) (label ∷ []) no_target scope ≡ err p)) ↔ (
      AnyFails kube (queries (label ∷ []))
      ⊎ (IsUnreadable kube scope
          ⊎ (AnyFails kube (map (target_deployments_command kube) (label ∷ []))
              ⊎ ((p : Panic) × (◌≡◌ {A = Result Panic (Map Bytes Node)} (ok []) (err p))))))
find_test_target_panics_example = find_test_target_panics kube (ok []) (label ∷ []) no_target scope

get_nodes_list_lem_example :
    role_of (
      lookup
        (codes "b")
        (get_nodes_list (some (codes "a" ∷ [])) (some (codes "a" ∷ codes "b" ∷ []))))
    ≡ role_listed
        (codes "b")
        (listed (codes "b") (codes "a" ∷ []))
        (listed (codes "b") (codes "a" ∷ codes "b" ∷ []))
get_nodes_list_lem_example =
    get_nodes_list_lem (codes "b") (codes "a" ∷ []) (codes "a" ∷ codes "b" ∷ [])
