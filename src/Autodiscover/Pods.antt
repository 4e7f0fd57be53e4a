-- ===== src/Autodiscover/Pods.antt =====
-- pkg/config/autodiscover/pod_info.go and autodiscover.go: pods, their containers, their networks.
use test_network_function.Prelude.{
  Bytes, codes, bytes_eq, str_eq, lookup, List, [], ◌∷◌, ◌++◌, map, length, Bool, true, false, not,
  ◌||◌, Option, none, some, if◌then◌else◌,
}
use test_network_function.Config.{Label, ContainerIdentifier, ContainerConfig, Pod}
use test_network_function.Autodiscover.{
  PodResource, CniNetworkInterface, Kube, build_annotation_name, build_label_query,
  execute_oc_get_command, execute_oc_get_all_command,
}

-- The test of the loop that filters pods.
unfoldable pub is_kept : PodResource → Bool
is_kept pod = str_eq pod.deletion_timestamp [] || not (str_eq pod.phase (codes "Running"))

unfoldable pub filter_pods : List PodResource → List PodResource
unfolding is_kept
filter_pods [] = []
filter_pods (pod ∷ pods) = let rest = filter_pods pods in if is_kept pod then pod ∷ rest else rest

-- `none` for an error of the decoder.
unfoldable pub filtered : Option (List PodResource) → Option (List PodResource)
unfolding filter_pods
filtered none = none
filtered (some pods) = some (filter_pods pods)

unfoldable pub get_pods_by_label : Kube → Label → Option (List PodResource)
unfolding filtered execute_oc_get_all_command build_label_query
get_pods_by_label k label =
    filtered
      (k.unmarshal_pods (execute_oc_get_all_command k (codes "pods") (build_label_query label)))

unfoldable pub get_pods_by_label_by_namespace : Kube → Label → Bytes → Option (List PodResource)
unfolding filtered execute_oc_get_command build_label_query
get_pods_by_label_by_namespace k label namespace =
    filtered (
      k.unmarshal_pods
        (execute_oc_get_command k (codes "pods") (build_label_query label) namespace))

abbrev pub cni_networks_status_key : Bytes
cni_networks_status_key = codes "k8s.v1.cni.cncf.io/networks-status"

unfoldable pub first_default : List CniNetworkInterface → Option Bytes
first_default [] = none
first_default (i ∷ is) = let rest = first_default is in if i.default then some i.interface else rest

-- The device, and whether the error is nil.
unfoldable pub get_default_network_device_from_annotations : Kube → PodResource → Bytes × Bool
unfolding build_annotation_name first_default
get_default_network_device_from_annotations k pr =
    elim (lookup (build_annotation_name (codes "defaultnetworkinterface")) pr.annotations) [
      | some val ↦ k.unmarshal_string val
      | none ↦ elim (lookup cni_networks_status_key pr.annotations) [
        | none ↦ ([], false)
        | some val ↦ elim (k.unmarshal_interfaces val) [
          | none ↦ ([], false)
          | some interfaces ↦ elim (first_default interfaces) [
            | none ↦ ([], false)
            | some interface ↦ (interface, true)
          ]
        ]
      ]
    ]

unfoldable pub other_ips : List CniNetworkInterface → List Bytes
other_ips [] = []
other_ips (i ∷ is) = let rest = other_ips is in if i.default then rest else i.ips ++ rest

-- `getPodIPs`: the addresses, and whether the error is nil.
unfoldable pub get_pod_ips : Kube → PodResource → List Bytes × Bool
unfolding build_annotation_name other_ips
get_pod_ips k pr = elim (lookup (build_annotation_name (codes "multusips")) pr.annotations) [
  | some val ↦ k.unmarshal_strings val
  | none ↦ elim (lookup cni_networks_status_key pr.annotations) [
    | none ↦ ([], true)
    | some val ↦ elim (k.unmarshal_interfaces val) [
      | none ↦ ([], false)
      | some interfaces ↦ (other_ips interfaces, true)
    ]
  ]
]

unfoldable pub build_container : Kube → PodResource → Bytes → ContainerConfig
unfolding get_default_network_device_from_annotations get_pod_ips
build_container k pr name = record {
  identifier = record {
    namespace = pr.namespace;
    pod_name = pr.name;
    container_name = name;
    node_name = pr.node_name;
  };
  default_network_device = (get_default_network_device_from_annotations k pr).0;
  multus_ip_addresses = (get_pod_ips k pr).0;
}

unfoldable pub build_containers_from_pod_resource : Kube → PodResource → List ContainerConfig
unfolding build_container
build_containers_from_pod_resource k pr = map (build_container k pr) pr.containers

-- The tests of an annotation, or else the configured ones.
unfoldable pub tests_or : Kube → List Bytes → Option Bytes → List Bytes
tests_or k configured none = configured
tests_or k configured (some val) =
    let (tests, decoded) = k.unmarshal_strings val in if decoded then tests else configured

unfoldable pub build_pod_under_test : Kube → PodResource → Pod
unfolding tests_or build_annotation_name
build_pod_under_test k pr = record {
  name = pr.name;
  namespace = pr.namespace;
  service_account = pr.service_account;
  container_count = length pr.containers;
  tests =
      tests_or k k.configured_pod_tests
        (lookup (build_annotation_name (codes "host_resource_tests")) pr.annotations);
}

unfoldable pub containers_of : Kube → List PodResource → List ContainerConfig
unfolding build_containers_from_pod_resource
containers_of k [] = []
containers_of k (pod ∷ pods) = build_containers_from_pod_resource k pod ++ containers_of k pods

unfoldable pub get_containers_by_label : Kube → Label → Option (List ContainerConfig)
unfolding get_pods_by_label containers_of
get_containers_by_label k label = elim (get_pods_by_label k label) [
  | none ↦ none
  | some pods ↦ some (containers_of k pods)
]

unfoldable pub get_containers_by_label_by_namespace :
    Kube → Label → Bytes → Option (List ContainerConfig)
unfolding get_pods_by_label_by_namespace containers_of
get_containers_by_label_by_namespace k label namespace =
    elim (get_pods_by_label_by_namespace k label namespace) [
      | none ↦ none
      | some pods ↦ some (containers_of k pods)
    ]

-- The identifiers of the containers; none beside an error.
unfoldable pub get_container_identifiers_by_label : Kube → Label → List ContainerIdentifier
unfolding get_containers_by_label
get_container_identifiers_by_label k label = elim (get_containers_by_label k label) [
  | none ↦ []
  | some containers ↦ map (λ c. c.identifier) containers
]

-- Exactly one container, or else an error.
unfoldable pub get_container_by_label_by_namespace : Kube → Label → Bytes → Option ContainerConfig
unfolding get_containers_by_label_by_namespace
get_container_by_label_by_namespace k label namespace =
    elim (get_containers_by_label_by_namespace k label namespace) [
      | none ↦ none
      | some containers ↦ elim containers [
        | [] ↦ none
        | c ∷ cs ↦ elim cs [ [] ↦ some c | _ ∷ _ ↦ none ]
      ]
    ]
