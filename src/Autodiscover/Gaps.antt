-- ===== src/Autodiscover/Gaps.antt =====
-- What discovery leaves out of its results, and what it lets through.
use test_network_function.Prelude.{
  ◌≡◌, ◌≢◌, refl, subst, Bytes, codes, str_eq_iff, Map, List, [], ◌∷◌, ◌++◌, map, Bool-cases, inl,
  inr, Option, none, some, Result, Panic, ok, >>=-eq-ok, arith,
}
use test_network_function.Config.{Label, Deployment, Node, TestTarget, no_hpa}
use test_network_function.Autodiscover.{PodResource, DeploymentResource, Kube}
use test_network_function.Autodiscover.Pods.{is_kept, filter_pods}
use test_network_function.Autodiscover.Targets.{
  in_scope, add_operators, get_csvs_by_label, items, read_resources, find_test_target,
  get_target_deployments_by_label, find_test_deployments_by_label, deployments_in_scope,
}
use test_network_function.Autodiscover.Selection.{add_labels_deployments, find_test_target-reads}

-- No deployment has an autoscaler.
abbrev pub AllUnscaled : List Deployment → Type 0
AllUnscaled [] = Unit
AllUnscaled (d ∷ ds) = (d.hpa ≡ no_hpa) × AllUnscaled ds

AllUnscaled-append :
    (xs ys : List Deployment) → AllUnscaled xs → AllUnscaled ys → AllUnscaled (xs ++ ys)
AllUnscaled-append [] ys hx hy = hy
AllUnscaled-append (x ∷ xs) ys (h, hx) hy = (h, AllUnscaled-append xs ys hx hy)

resources-AllUnscaled :
    (resources : List DeploymentResource)
    → AllUnscaled (
        map
          (λ r. record {
            name = r.name;
            namespace = r.namespace;
            replicas = r.replicas;
            hpa = no_hpa;
          })
          resources)
resources-AllUnscaled [] = tt
resources-AllUnscaled (r ∷ rs) = (refl, resources-AllUnscaled rs)

found-AllUnscaled :
    (k : Kube) (labels : List Label) → AllUnscaled (find_test_deployments_by_label k labels)
unfolding find_test_deployments_by_label
found-AllUnscaled k [] = tt
found-AllUnscaled k (label ∷ labels) =
    AllUnscaled-append _ _ (here (get_target_deployments_by_label k label))
      (found-AllUnscaled k labels)
  where
    here :
        (o : Option (List DeploymentResource))
        → AllUnscaled (elim o [
          | none ↦ []
          | some resources ↦
              map
                (λ r. record {
                  name = r.name;
                  namespace = r.namespace;
                  replicas = r.replicas;
                  hpa = no_hpa;
                })
                resources
        ])
    here none = tt
    here (some resources) = resources-AllUnscaled resources

in_scope-AllUnscaled :
    (ns : List Bytes) (ds : List Deployment)
    → AllUnscaled ds
    → AllUnscaled (deployments_in_scope ns ds)
unfolding deployments_in_scope
in_scope-AllUnscaled ns [] h = tt
in_scope-AllUnscaled ns (d ∷ ds) (h, hs) = elim (Bool-cases (in_scope ns d.namespace)) [
  | inl e ↦ rw e (h, in_scope-AllUnscaled ns ds hs)
  | inr e ↦ rw e (in_scope-AllUnscaled ns ds hs)
]

-- The deployments that discovery adds to the target have no autoscaler, whatever autoscalers the
-- cluster has: where the given deployments have none, none of those under test has one.
pub find_test_target-AllUnscaled :
    (k : Kube) (nodes : Result Panic (Map Bytes Node)) (labels : List Label)
    (target target' : TestTarget) (ns : List Bytes)
    → AllUnscaled target.deployments_under_test
    → find_test_target k nodes labels target ns ≡ ok target'
    → AllUnscaled target'.deployments_under_test
unfolding read_resources
find_test_target-AllUnscaled k nodes labels target target' ns given h =
    let (read_target, listed, read, known, whole) =
      find_test_target-reads k nodes labels target target' ns h in
    let (csvs, e, rest) = >>=-eq-ok (items (get_csvs_by_label k (codes "operator") [])) _ read in
    let (operators, e', done) = >>=-eq-ok (add_operators k ns csvs) _ rest in
    let found = deployments_in_scope ns (find_test_deployments_by_label k labels) in
    let same : target.deployments_under_test ++ found ≡ target'.deployments_under_test =
      ground (arith, add_labels_deployments k ns labels target) in
    subst (λ (t : List Deployment). AllUnscaled t) same
      (AllUnscaled-append target.deployments_under_test found given (
        in_scope-AllUnscaled ns (find_test_deployments_by_label k labels)
          (found-AllUnscaled k labels)))

-- None of the pods runs.
abbrev pub NoneRuns : List PodResource → Type 0
NoneRuns [] = Unit
NoneRuns (pod ∷ pods) = (pod.phase ≢ codes "Running") × NoneRuns pods

-- The filter of the pods lets every pod through that does not run, terminating or not.
pub filter_pods-NoneRuns : (pods : List PodResource) → NoneRuns pods → filter_pods pods ≡ pods
unfolding filter_pods is_kept
filter_pods-NoneRuns [] h = refl
filter_pods-NoneRuns (pod ∷ pods) (h, hs) =
    ground (arith, filter_pods-NoneRuns pods hs, str_eq_iff pod.phase (codes "Running"))
