-- ===== src/Config/Halting.antt =====
-- pkg/config/config.go: what a discovery that stops leaves of the flags of the environment.
use test_network_function.Prelude.{
  ◌≡◌, ◌≢◌, ◌∙◌, Bytes, codes, none, [], true, false, Bool-cases, inl, inr, Result, ok, err,
  >>=-eq-err, arith,
}
use test_network_function.Config.Nodes.{create_nodes, label_nodes, debug_names}
use test_network_function.Config.{no_target, no_partner}
use test_network_function.Config.Environment.{
  Discovery, Excluded, TestEnvironment, Cluster, Stop, fatal, Halted, or_halt, containers_or_halt,
  add_debug_label, delete_debug_label, get_configuration_file_path_from_environment,
  load_config_from_file, create_containers, exclude, exclude_configs,
}
use test_network_function.Config.Sessions.{reset_oc}
use test_network_function.Config.Refresh.{
  labels_or_halt, run_commands, create_debug_containers, find_debug_containers, debug_pods,
  discover_nodes, or_stop, target_of, name_spaces, with_target, with_partner, with_containers,
  find_containers, with_found, with_crds, with_exclusions, do_autodiscover, reset, load_and_refresh,
}

-- Neither flag was changed.
abbrev pub Kept : TestEnvironment → Halted → Type 0
Kept env x = (x.environment.loaded ≡ env.loaded) × (x.environment.needs_refresh ≡ env.needs_refresh)

or_halt-Kept {ℓ} :
    {A : Type ℓ} (r : Result Stop A) (env : TestEnvironment) (cluster : Cluster) (x : Halted)
    → or_halt r env cluster ≡ err x
    → Kept env x
unfolding or_halt
or_halt-Kept (ok a) env cluster x h = absurd (ground arith)
or_halt-Kept (err e) env cluster x h = ground arith

labels_or_halt-Kept :
    (r : Result (Stop × Cluster) Cluster) (env : TestEnvironment) (x : Halted)
    → labels_or_halt r env ≡ err x
    → Kept env x
unfolding labels_or_halt
labels_or_halt-Kept (ok a) env x h = absurd (ground arith)
labels_or_halt-Kept (err (e, c)) env x h = ground arith

containers_or_halt-Kept {ℓ} :
    {A : Type ℓ} (r : Result (Stop × Excluded × Cluster) A) (env : TestEnvironment) (x : Halted)
    → containers_or_halt r env ≡ err x
    → Kept env x
unfolding containers_or_halt
containers_or_halt-Kept (ok a) env x h = absurd (ground arith)
containers_or_halt-Kept (err (e, excluded, c)) env x h = ground arith

create_debug_containers-Kept :
    (d : Discovery) (env : TestEnvironment) (cluster : Cluster) (x : Halted)
    → create_debug_containers d env cluster ≡ err x
    → Kept env x
unfolding create_debug_containers
create_debug_containers-Kept d env cluster x h =
    let left = with_partner (d.partner_left env.config.partner) env in
    elim (>>=-eq-err (or_halt (d.find_debug_pods env.config.partner) left cluster) _ h) [
      | inl bad ↦ or_halt-Kept (d.find_debug_pods env.config.partner) left cluster x bad
      | inr (partner, e, rest) ↦
          let excluded = exclude_configs partner.containers_debug_list env.containers_to_exclude in
          let created = create_containers d partner.containers_debug_list [] excluded cluster in
          elim (>>=-eq-err (containers_or_halt created (with_partner partner env)) _ rest) [
            | inl bad ↦ containers_or_halt-Kept created (with_partner partner env) x bad
            | inr (done, e', end) ↦ absurd (ground arith)
          ]
    ]

find_debug_containers-Kept :
    (d : Discovery) (env : TestEnvironment) (cluster : Cluster) (x : Halted)
    → find_debug_containers d env cluster ≡ err x
    → Kept env x
unfolding find_debug_containers
find_debug_containers-Kept d env cluster x h =
    ground (arith, create_debug_containers-Kept d env cluster x)

debug_pods-Kept :
    (d : Discovery) (env : TestEnvironment) (cluster : Cluster) (x : Halted)
    → debug_pods d env cluster ≡ err x
    → Kept env x
unfolding debug_pods
debug_pods-Kept d env cluster x h = ground (arith, find_debug_containers-Kept d env cluster x)

discover_nodes-Kept :
    (d : Discovery) (env : TestEnvironment) (cluster : Cluster) (x : Halted)
    → discover_nodes d env cluster ≡ err x
    → Kept env x
unfolding discover_nodes
discover_nodes-Kept d env cluster x h =
    let created = create_nodes env.config.test_target.nodes env.containers_under_test in
    let unlabelled : TestEnvironment = record env { nodes_under_test = created } in
    elim (>>=-eq-err (or_halt (or_stop (label_nodes created)) unlabelled cluster) _ h) [
      | inl bad ↦ or_halt-Kept (or_stop (label_nodes created)) unlabelled cluster x bad
      | inr ((nodes, names), e, rest) ↦
          let labelled : TestEnvironment = record env { nodes_under_test = nodes } in
          let commands = run_commands add_debug_label d.label_is_added names cluster in
          elim (>>=-eq-err (labels_or_halt commands labelled) _ rest) [
            | inl bad ↦ labels_or_halt-Kept commands labelled x bad
            | inr (after, e', next) ↦ elim (>>=-eq-err (debug_pods d labelled after) _ next) [
              | inl bad ↦ debug_pods-Kept d labelled after x bad
              | inr (found, e'', done) ↦ absurd (ground arith)
            ]
          ]
    ]

find_containers-Kept :
    (d : Discovery) (env : TestEnvironment) (cluster : Cluster) (x : Halted)
    → find_containers d env cluster ≡ err x
    → Kept env x
unfolding find_containers with_target with_containers
find_containers-Kept d env cluster x h =
    let left =
      with_target
        (d.target_left env.config.target_pod_labels env.config.test_target (name_spaces env)) env in
    elim (>>=-eq-err (or_halt (target_of d env) left cluster) _ h) [
      | inl bad ↦ or_halt-Kept (target_of d env) left cluster x bad
      | inr (target, e, rest) ↦
          let configured = exclude target.exclude_containers_from_connectivity_tests [] in
          let first = create_containers d target.container_config_list [] configured cluster in
          elim (>>=-eq-err (containers_or_halt first (with_target target env)) _ rest) [
            | inl bad ↦ containers_or_halt-Kept first (with_target target env) x bad
            | inr ((containers, tested, started), e', next) ↦
                let with_debug = exclude_configs env.config.partner.containers_debug_list tested in
                let found = d.find_test_partner env.config.partner (codes "default") in
                let unpartnered =
                  with_exclusions with_debug
                    (with_containers target containers env.config.partner env) in
                elim (>>=-eq-err (or_halt found unpartnered started) _ next) [
                  | inl bad ↦ or_halt-Kept found unpartnered started x bad
                  | inr (partner, e'', last) ↦
                      let left' = with_containers target containers partner env in
                      let second =
                        create_containers d partner.container_config_list [] with_debug started in
                      elim (>>=-eq-err (containers_or_halt second left') _ last) [
                        | inl bad ↦ containers_or_halt-Kept second left' x bad
                        | inr (done, end, returned) ↦ absurd (ground arith)
                      ]
                ]
          ]
    ]

do_autodiscover-Kept :
    (d : Discovery) (env : TestEnvironment) (cluster : Cluster) (x : Halted)
    → do_autodiscover d env cluster ≡ err x
    → Kept env x
unfolding do_autodiscover with_found
do_autodiscover-Kept d env cluster x h = elim (>>=-eq-err (find_containers d env cluster) _ h) [
  | inl bad ↦ find_containers-Kept d env cluster x bad
  | inr ((found, started), e, rest) ↦
      let whole = with_found env found in
      let names = d.find_test_crd_names env.config.crd_filters in
      elim (>>=-eq-err (or_halt names whole started) _ rest) [
        | inl bad ↦ or_halt-Kept names whole started x bad
        | inr (crds, e', next) ↦
            elim (>>=-eq-err (discover_nodes d (with_crds crds whole) started) _ next) [
              | inl bad ↦ discover_nodes-Kept d (with_crds crds whole) started x bad
              | inr (after, e'', done) ↦ absurd (ground arith)
            ]
      ]
]

reset-Kept :
    (d : Discovery) (env : TestEnvironment) (cluster : Cluster) (x : Halted)
    → reset d env cluster ≡ err x
    → Kept env x
unfolding reset reset_oc
reset-Kept d env cluster x h =
    let (closed, after) = reset_oc env cluster in
    let cleared : TestEnvironment = record closed {
      config = record closed.config { partner = no_partner; test_target = no_target };
      test_orchestrator = none;
    } in
    let commands =
      run_commands delete_debug_label d.label_is_deleted (debug_names closed.nodes_under_test)
        after in
    elim (>>=-eq-err (labels_or_halt commands cleared) _ h) [
      | inl bad ↦ labels_or_halt-Kept commands cleared x bad
      | inr (done, e, end) ↦ absurd (ground arith)
    ]

reset-flags :
    (d : Discovery) (env env' : TestEnvironment) (cluster cluster' : Cluster)
    → reset d env cluster ≡ ok (env', cluster')
    → (env'.loaded ≡ env.loaded) × (env'.needs_refresh ≡ env.needs_refresh)
unfolding reset reset_oc
reset-flags d env env' cluster cluster' h = ground arith

load_config_from_file-loads :
    (d : Discovery) (path : Bytes) (env : TestEnvironment)
    → env.loaded ≡ false
    → (load_config_from_file d path env).1 ≡ true
    → (load_config_from_file d path env).0.loaded ≡ true
unfolding load_config_from_file
load_config_from_file-loads d path env off h = ground arith

-- A load that stops, other than by ending the process, leaves a loaded environment, which is to be
-- refreshed only if it was before.
pub load_and_refresh-halts :
    (d : Discovery) (env : TestEnvironment) (cluster : Cluster) (x : Halted)
    → load_and_refresh d env cluster ≡ err x
    → x.why ≢ fatal
    → (x.environment.loaded ≡ true)
      × (env.loaded ≡ true → x.environment.needs_refresh ≡ env.needs_refresh)
unfolding load_and_refresh
load_and_refresh-halts d env cluster x h goes_on = elim (Bool-cases env.loaded) [
  | inr off ↦
      let path = get_configuration_file_path_from_environment d in
      let read = load_config_from_file d path env in
      elim (Bool-cases read.1) [
        | inl done ↦
            let kept = do_autodiscover-Kept d read.0 cluster x (ground arith) in
            let on = load_config_from_file-loads d path env off done in (kept.0 ∙ on, ground arith)
        | inr failed ↦ absurd (goes_on (ground arith))
      ]
  | inl on ↦ elim (Bool-cases env.needs_refresh) [
    | inr fresh ↦ absurd (ground arith)
    | inl stale ↦
        elim (>>=-eq-err (reset d env cluster) (λ s. do_autodiscover d s.0 s.1) (ground arith)) [
          | inl bad ↦ let kept = reset-Kept d env cluster x bad in (kept.0 ∙ on, λ _. kept.1)
          | inr ((clear, after), e, rest) ↦
              let kept = do_autodiscover-Kept d clear after x rest in
              let same = reset-flags d env clear cluster after e in
              (kept.0 ∙ (same.0 ∙ on), λ _. kept.1 ∙ same.1)
        ]
  ]
]
