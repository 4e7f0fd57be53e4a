-- ===== src/Autodiscover/Targets.antt =====
-- pkg/config/autodiscover: the pods, operators, deployments and CRDs under test.
use test_network_function.Prelude.{
  Bytes, codes, bytes_eq, str_eq, Map, lookup, List, [], ◌∷◌, ◌++◌, map, Bool, true, false, ◌||◌,
  Option, none, some, Result, ok, err, ◌>>=◌, Panic, nil_dereference, if◌then◌else◌,
}
use test_network_function.Strings.{split, atoi, has_suffix}
use test_network_function.Handlers.{at}
use test_network_function.Config.{
  Label, ContainerIdentifier, Operator, Hpa, Node, Deployment, TestTarget, no_hpa,
}
use test_network_function.Autodiscover.{
  PodResource, CsvResource, DeploymentResource, Kube, tnf_label_prefix, build_label_name,
  build_annotation_name, build_label_query, execute_oc_get_all_command, oc_get_all_command, run_all,
}
use test_network_function.Autodiscover.Pods.{
  get_pods_by_label, build_pod_under_test, build_containers_from_pod_resource,
  get_container_identifiers_by_label, tests_or,
}

-- `ns[name]` for the set of the namespaces.
unfoldable pub in_scope : List Bytes → Bytes → Bool
in_scope [] name = false
in_scope (n ∷ ns) name = str_eq n name || in_scope ns name

-- The loop over the pods of a label.
unfoldable pub add_pods : Kube → List Bytes → List PodResource → TestTarget → TestTarget
unfolding in_scope build_pod_under_test build_containers_from_pod_resource
add_pods k ns [] target = target
add_pods k ns (pod ∷ pods) target = add_pods k ns pods (
    if in_scope ns pod.namespace
    then record target {
      pods_under_test = target.pods_under_test ++ build_pod_under_test k pod ∷ [];
      container_config_list =
          target.container_config_list ++ build_containers_from_pod_resource k pod;
    }
    else record target {
      non_valid_pods = target.non_valid_pods ++ build_pod_under_test k pod ∷ [];
    })

-- The loop over the labels; a label whose query fails is passed over.
unfoldable pub add_labels : Kube → List Bytes → List Label → TestTarget → TestTarget
unfolding add_pods get_pods_by_label
add_labels k ns [] target = target
add_labels k ns (label ∷ labels) target =
    add_labels k ns labels
      (elim (get_pods_by_label k label) [ none ↦ target | some pods ↦ add_pods k ns pods target ])

unfoldable pub ids_in_scope : List Bytes → List ContainerIdentifier → List ContainerIdentifier
unfolding in_scope
ids_in_scope ns [] = []
ids_in_scope ns (c ∷ cs) =
    let rest = ids_in_scope ns cs in if in_scope ns c.namespace then c ∷ rest else rest

-- The first name of the annotation, which panics on an empty list.
unfoldable pub subscription_of : Kube → Option Bytes → Result Panic Bytes
subscription_of k none = ok []
subscription_of k (some val) =
    let (names, decoded) = k.unmarshal_strings val in if decoded then at names 0 else ok []

-- `buildOperatorFromCSVResource`
unfoldable pub build_operator_from_csv_resource : Kube → CsvResource → Result Panic Operator
unfolding tests_or subscription_of build_annotation_name at
build_operator_from_csv_resource k csv = do
  subscription ←
      subscription_of k (lookup (build_annotation_name (codes "subscription_name")) csv.annotations)
  ok (record {
    name = csv.name;
    namespace = csv.namespace;
    tests =
        tests_or k k.configured_operator_tests
          (lookup (build_annotation_name (codes "operator_tests")) csv.annotations);
    subscription_name = subscription;
  })

-- `GetCSVsByLabel`
unfoldable pub get_csvs_by_label : Kube → Bytes → Bytes → Option (List CsvResource)
unfolding execute_oc_get_all_command build_label_query
get_csvs_by_label k name value = k.unmarshal_csvs (
    execute_oc_get_all_command k (codes "csv")
      (build_label_query (record { prefix = tnf_label_prefix; name = name; value = value })))

-- The loop over the operators; a panic of one ends it.
unfoldable pub add_operators : Kube → List Bytes → List CsvResource → Result Panic (List Operator)
unfolding in_scope build_operator_from_csv_resource
add_operators k ns [] = ok []
add_operators k ns (csv ∷ csvs) =
    let rest = add_operators k ns csvs in
    if in_scope ns csv.namespace
    then (do op ← build_operator_from_csv_resource k csv; ops ← rest; ok (op ∷ ops))
    else rest

-- The list of a failed query is nil, and reading its items panics.
unfoldable pub items : Option (List CsvResource) → Result Panic (List CsvResource)
items none = err nil_dereference
items (some csvs) = ok csvs

unfoldable pub target_deployments_command : Kube → Label → Bytes
unfolding build_label_name
target_deployments_command k label =
    let query =
      k.quote (build_label_name label.prefix label.name) ++ (codes "==" ++ k.quote label.value) in
    codes "oc get deployment -A -o json | jq '[.items[] | select(.spec.template.metadata.labels."
    ++ (query ++ codes ")]'")

-- `GetTargetDeploymentsByLabel`
unfoldable pub get_target_deployments_by_label : Kube → Label → Option (List DeploymentResource)
unfolding target_deployments_command
get_target_deployments_by_label k label =
    k.unmarshal_deployments (k.execute (target_deployments_command k label))

-- `FindTestDeploymentsByLabel`, whose deployments have no autoscaler.
unfoldable pub find_test_deployments_by_label : Kube → List Label → List Deployment
unfolding get_target_deployments_by_label
find_test_deployments_by_label k [] = []
find_test_deployments_by_label k (label ∷ labels) =
    elim (get_target_deployments_by_label k label) [
      | none ↦ []
      | some resources ↦
          map
            (λ r. record {
              name = r.name;
              namespace = r.namespace;
              replicas = r.replicas;
              hpa = no_hpa;
            })
            resources
    ]
    ++ find_test_deployments_by_label k labels

-- `DeploymentResource.GetHpa`
unfoldable pub get_hpa : Kube → DeploymentResource → Result Panic Hpa
unfolding at
get_hpa k deployment =
    let template =
      codes "go-template='{{ range .items }}{{ if eq .spec.scaleTargetRef.name "
      ++ (k.quote deployment.name
          ++ codes
              " }}{{.spec.minReplicas}},{{.spec.maxReplicas}},{{.metadata.name}}{{ end }}{{ end }}'") in
    let out =
      k.execute (codes "oc get hpa -n " ++ (deployment.namespace ++ (codes " -o " ++ template))) in
    if str_eq out [] then ok no_hpa else (do
      min ← at (split out (codes ",")) 0
      max ← at (split out (codes ",")) 1
      name ← at (split out (codes ",")) 2
      ok (record { min_replicas = (atoi min).0; max_replicas = (atoi max).0; hpa_name = name }))

unfoldable pub deployments_in_scope : List Bytes → List Deployment → List Deployment
unfolding in_scope
deployments_in_scope ns [] = []
deployments_in_scope ns (d ∷ ds) =
    let rest = deployments_in_scope ns ds in if in_scope ns d.namespace then d ∷ rest else rest

abbrev pub skip_label : Label
skip_label = record {
  prefix = tnf_label_prefix;
  name = codes "skip_connectivity_tests";
  value = [];
}

-- What `FindTestTarget` makes of the outputs of its queries.
unfoldable pub read_resources :
    Kube → List Label → TestTarget → List Bytes → Result Panic TestTarget
unfolding add_labels ids_in_scope get_container_identifiers_by_label get_csvs_by_label items
    add_operators deployments_in_scope find_test_deployments_by_label
read_resources k labels target ns = do
  let found = add_labels k ns labels target
  let skipped = get_container_identifiers_by_label k skip_label
  csvs ← items (get_csvs_by_label k (codes "operator") [])
  operators ← add_operators k ns csvs
  ok (record found {
    exclude_containers_from_connectivity_tests =
        found.exclude_containers_from_connectivity_tests ++ ids_in_scope ns skipped;
    operators = found.operators ++ operators;
    deployments_under_test =
        found.deployments_under_test
        ++ deployments_in_scope ns (find_test_deployments_by_label k labels);
  })

-- The commands for the pods of the labels, the containers to skip and the operators, in order.
unfoldable pub queries : List Label → List Bytes
unfolding build_label_query oc_get_all_command
queries labels =
    map (λ label. oc_get_all_command (codes "pods") (build_label_query label)) labels
    ++ (oc_get_all_command (codes "pods") (build_label_query skip_label)
        ∷ oc_get_all_command (codes "csv") (
            build_label_query
              (record { prefix = tnf_label_prefix; name = codes "operator"; value = [] }))
        ∷ [])

-- `FindTestTarget`, with what `GetNodesList` returns, or its panic where the test cannot be made.
-- The operators are read between the commands before them and those for the deployments.
unfoldable pub find_test_target :
    Kube
    → Result Panic (Map Bytes Node)
    → List Label
    → TestTarget
    → List Bytes
    → Result Panic TestTarget
unfolding queries target_deployments_command read_resources run_all
find_test_target k nodes labels target ns = do
  _ ← run_all k (queries labels)
  found ← read_resources k labels target ns
  _ ← run_all k (map (target_deployments_command k) labels)
  listed ← nodes
  ok (record found { nodes = listed })

-- One of the filters fits the name.
unfoldable pub any_suffix : List Bytes → Bytes → Bool
unfolding has_suffix
any_suffix [] name = false
any_suffix (suffix ∷ filters) name =
    let later = any_suffix filters name in if has_suffix suffix name then true else later

unfoldable pub names_with_suffix : List Bytes → List Bytes → List Bytes
unfolding any_suffix
names_with_suffix filters [] = []
names_with_suffix filters (name ∷ names) =
    let rest = names_with_suffix filters names in
    if any_suffix filters name then name ∷ rest else rest

abbrev pub crd_names_command : Bytes
crd_names_command = codes "kubectl get crd -o json | jq '[.items[].metadata.name]'"

-- `FindTestCrdNames`
unfoldable pub find_test_crd_names : Kube → List Bytes → Result Panic (List Bytes)
unfolding names_with_suffix run_all
find_test_crd_names k filters = do
  _ ← run_all k (crd_names_command ∷ [])
  let (names, decoded) = k.unmarshal_strings (k.execute crd_names_command)
  ok (if decoded then names_with_suffix filters names else [])
