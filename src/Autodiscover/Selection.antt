-- ===== src/Autodiscover/Selection.antt =====
-- What discovery puts under test, and when it panics.
use test_network_function.Prelude.{
  ◌≡◌, inl, inr, refl, ◌∙◌, Bytes, codes, bytes_eq, Map, List, [], ◌∷◌, ◌++◌, append_assoc,
  append-nil, map, map-append, Bool-cases, none, some, Option-cases, Result, Panic, ok, >>=-eq-ok,
  arith, if◌then◌else◌,
}
use test_network_function.Config.{Label, Node, TestTarget}
use test_network_function.Autodiscover.{PodResource, Kube, run_all}
use test_network_function.Autodiscover.Pods.{
  get_pods_by_label, build_pod_under_test, build_containers_from_pod_resource, containers_of,
}
use test_network_function.Autodiscover.Targets.{
  in_scope, add_pods, add_labels, add_operators, get_csvs_by_label, items, queries, read_resources,
  target_deployments_command, find_test_target,
}

-- The pods that the queries of the labels return, in their order.
abbrev pub found_pods : Kube → List Label → List PodResource
found_pods k [] = []
found_pods k (label ∷ labels) =
    elim (get_pods_by_label k label) [ none ↦ [] | some pods ↦ pods ] ++ found_pods k labels

-- The pods inside the namespaces, and the others.
abbrev pub pods_within : List Bytes → List PodResource → List PodResource
pods_within ns [] = []
pods_within ns (pod ∷ pods) =
    (if in_scope ns pod.namespace then pod ∷ [] else []) ++ pods_within ns pods

abbrev pub pods_without : List Bytes → List PodResource → List PodResource
pods_without ns [] = []
pods_without ns (pod ∷ pods) =
    (if in_scope ns pod.namespace then [] else pod ∷ []) ++ pods_without ns pods

-- The lists of a target after pods are sorted into it.
abbrev Sorted : Kube → List Bytes → List PodResource → TestTarget → TestTarget → Type 0
Sorted k ns pods before after =
    (after.pods_under_test
      ≡ before.pods_under_test ++ map (build_pod_under_test k) (pods_within ns pods))
    × (after.container_config_list
        ≡ before.container_config_list ++ containers_of k (pods_within ns pods))
    × (after.non_valid_pods
        ≡ before.non_valid_pods ++ map (build_pod_under_test k) (pods_without ns pods))
    × (after.deployments_under_test ≡ before.deployments_under_test)

add_pods-Sorted :
    (k : Kube) (ns : List Bytes) (pods : List PodResource) (target : TestTarget)
    → Sorted k ns pods target (add_pods k ns pods target)
unfolding add_pods containers_of
add_pods-Sorted k ns [] target = (simp (append-nil), simp (append-nil), simp (append-nil), refl)
add_pods-Sorted k ns (pod ∷ pods) target = elim (Bool-cases (in_scope ns pod.namespace)) [
  | inl e ↦
      let target' : TestTarget = record target {
        pods_under_test = target.pods_under_test ++ build_pod_under_test k pod ∷ [];
        container_config_list =
            target.container_config_list ++ build_containers_from_pod_resource k pod;
      } in
      ground (
        arith,
        add_pods-Sorted k ns pods target',
        append_assoc target.pods_under_test (build_pod_under_test k pod ∷ [])
            (map (build_pod_under_test k) (pods_within ns pods)),
        append_assoc target.container_config_list (build_containers_from_pod_resource k pod)
            (containers_of k (pods_within ns pods)),
      )
  | inr e ↦
      let target' : TestTarget = record target {
        non_valid_pods = target.non_valid_pods ++ build_pod_under_test k pod ∷ [];
      } in
      ground (
        arith,
        add_pods-Sorted k ns pods target',
        append_assoc target.non_valid_pods (build_pod_under_test k pod ∷ [])
            (map (build_pod_under_test k) (pods_without ns pods)),
      )
]

pods_within-append :
    (ns : List Bytes) (xs ys : List PodResource)
    → pods_within ns (xs ++ ys) ≡ pods_within ns xs ++ pods_within ns ys
pods_within-append ns [] ys = refl
pods_within-append ns (x ∷ xs) ys = ground (
  arith,
  pods_within-append ns xs ys,
  append_assoc (if in_scope ns x.namespace then x ∷ [] else []) (pods_within ns xs)
      (pods_within ns ys),
)

pods_without-append :
    (ns : List Bytes) (xs ys : List PodResource)
    → pods_without ns (xs ++ ys) ≡ pods_without ns xs ++ pods_without ns ys
pods_without-append ns [] ys = refl
pods_without-append ns (x ∷ xs) ys = ground (
  arith,
  pods_without-append ns xs ys,
  append_assoc (if in_scope ns x.namespace then [] else x ∷ []) (pods_without ns xs)
      (pods_without ns ys),
)

containers_of-append :
    (k : Kube) (xs ys : List PodResource)
    → containers_of k (xs ++ ys) ≡ containers_of k xs ++ containers_of k ys
unfolding containers_of
containers_of-append k [] ys = refl
containers_of-append k (x ∷ xs) ys = ground (
  arith,
  containers_of-append k xs ys,
  append_assoc (build_containers_from_pod_resource k x) (containers_of k xs) (containers_of k ys),
)

-- Sorting two lists of pods one after the other is sorting both at once.
Sorted-append :
    (k : Kube) (ns : List Bytes) (xs ys : List PodResource) (a b c : TestTarget)
    → Sorted k ns xs a b
    → Sorted k ns ys b c
    → Sorted k ns (xs ++ ys) a c
Sorted-append k ns xs ys a b c (p, q, r, s) (p', q', r', s') =
    let build = build_pod_under_test k in
    (
      ground (
        arith,
        pods_within-append ns xs ys,
        map-append build (pods_within ns xs) (pods_within ns ys),
        append_assoc a.pods_under_test (map build (pods_within ns xs))
            (map build (pods_within ns ys)),
      ),
      ground (
        arith,
        pods_within-append ns xs ys,
        containers_of-append k (pods_within ns xs) (pods_within ns ys),
        append_assoc a.container_config_list (containers_of k (pods_within ns xs))
            (containers_of k (pods_within ns ys)),
      ),
      ground (
        arith,
        pods_without-append ns xs ys,
        map-append build (pods_without ns xs) (pods_without ns ys),
        append_assoc a.non_valid_pods (map build (pods_without ns xs))
            (map build (pods_without ns ys)),
      ),
      s' ∙ s,
    )

add_labels-Sorted :
    (k : Kube) (ns : List Bytes) (labels : List Label) (target : TestTarget)
    → Sorted k ns (found_pods k labels) target (add_labels k ns labels target)
unfolding add_labels containers_of
add_labels-Sorted k ns [] target = (simp (append-nil), simp (append-nil), simp (append-nil), refl)
add_labels-Sorted k ns (label ∷ labels) target = elim (Option-cases (get_pods_by_label k label)) [
  | inl e ↦ ground (arith, add_labels-Sorted k ns labels target)
  | inr (pods, e) ↦
      let first : TestTarget = add_pods k ns pods target in
      ground (
        arith,
        Sorted-append k ns pods (found_pods k labels) target first (add_labels k ns labels first)
            (add_pods-Sorted k ns pods target) (add_labels-Sorted k ns labels first),
      )
]

-- A discovery that returns has read the resources, and the nodes.
pub find_test_target-reads :
    (k : Kube) (nodes : Result Panic (Map Bytes Node)) (labels : List Label)
    (target target' : TestTarget) (ns : List Bytes)
    → find_test_target k nodes labels target ns ≡ ok target'
    → (found : TestTarget) × (listed : Map Bytes Node) × (read_resources k labels target ns
        ≡ ok found)
      × (nodes ≡ ok listed)
      × (record found { nodes = listed } ≡ target')
unfolding find_test_target
find_test_target-reads k nodes labels target target' ns h =
    let (_, ran, rest) = >>=-eq-ok (run_all k (queries labels)) _ h in
    let (found, read, rest') = >>=-eq-ok (read_resources k labels target ns) _ rest in
    let (_, ran', rest'') =
      >>=-eq-ok (run_all k (map (target_deployments_command k) labels)) _ rest' in
    let (listed, known, done) = >>=-eq-ok nodes _ rest'' in
    (found, listed, read, known, ground (arith, done))

-- Where discovery returns, the pods that the queries of the labels found are split between the pods
-- under test, which are those inside the namespaces under test, and the pods that are not valid;
-- the containers of the former are those under test; all this is appended to the target that was
-- given, and the nodes are replaced.
pub find_test_target_lem :
    (k : Kube) (nodes : Result Panic (Map Bytes Node)) (labels : List Label)
    (target target' : TestTarget) (ns : List Bytes)
    → find_test_target k nodes labels target ns ≡ ok target'
    → (target'.pods_under_test
        ≡ target.pods_under_test
          ++ map (build_pod_under_test k) (pods_within ns (found_pods k labels)))
      × (target'.container_config_list
          ≡ target.container_config_list ++ containers_of k (pods_within ns (found_pods k labels)))
      × (target'.non_valid_pods
          ≡ target.non_valid_pods
            ++ map (build_pod_under_test k) (pods_without ns (found_pods k labels)))
      × (nodes ≡ ok target'.nodes)
unfolding read_resources
find_test_target_lem k nodes labels target target' ns h =
    let (found, listed, read, known, same) =
      find_test_target-reads k nodes labels target target' ns h in
    let (csvs, e, rest) = >>=-eq-ok (items (get_csvs_by_label k (codes "operator") [])) _ read in
    let (operators, e', done) = >>=-eq-ok (add_operators k ns csvs) _ rest in
    ground (arith, add_labels-Sorted k ns labels target)

pub add_labels_deployments :
    (k : Kube) (ns : List Bytes) (labels : List Label) (target : TestTarget)
    → (add_labels k ns labels target).deployments_under_test ≡ target.deployments_under_test
add_labels_deployments k ns labels target = (add_labels-Sorted k ns labels target).3
