-- ===== src/Config/Freshness.antt =====
-- What the test environment agrees with after any number of loads, refreshes and resets.
use test_network_function.Prelude.{
  ◌≡◌, refl, sym, subst, ap, ◌⊎◌, ◌∙◌, Bytes, List, [], ◌++◌, Bool, not, ◌||◌, ◌≢◌, Result, err,
  true, false, Bool-cases, inl, inr, none, ok, >>=-eq-ok, arith,
}
use test_network_function.Config.{TestTarget, TestPartner, no_target, no_partner}
use test_network_function.Config.Environment.{
  Discovery, TestEnvironment, Cluster, Halted, fatal, get_configuration_file_path_from_environment,
  load_config_from_file,
}
use test_network_function.Config.Sessions.{reset_oc}
use test_network_function.Config.Halting.{load_and_refresh-halts}
use test_network_function.Config.Refresh.{
  do_autodiscover, reset, load_and_refresh, set_needs_refresh,
}
use test_network_function.Config.Discovered.{do_autodiscover-IsDiscovered}

-- What holds of the environment between the calls.
pub record IsConsistent (env : TestEnvironment) : Type 0 where
  pub unloaded : env.loaded ≡ false → env.name_spaces_under_test ≡ []
  pub in_scope : env.loaded ≡ true → env.name_spaces_under_test ≡ env.config.target_name_spaces
  pub pods : env.loaded ≡ true → env.pods_under_test ≡ env.config.test_target.pods_under_test
  pub deployments :
      env.loaded ≡ true → env.deployments_under_test ≡ env.config.test_target.deployments_under_test
  pub operators : env.loaded ≡ true → env.operators_under_test ≡ env.config.test_target.operators

do_autodiscover-IsConsistent :
    (d : Discovery) (env env' : TestEnvironment) (cluster cluster' : Cluster)
    → env.name_spaces_under_test ≡ []
    → env.loaded ≡ true
    → do_autodiscover d env cluster ≡ ok (env', cluster')
    → IsConsistent env' × (env'.loaded ≡ true) × (env'.needs_refresh ≡ false)
do_autodiscover-IsConsistent d env env' cluster cluster' empty on h =
    let (found, targets, loaded) = do_autodiscover-IsDiscovered d env env' cluster cluster' h in
    let names : env'.name_spaces_under_test ≡ env.config.target_name_spaces =
      found.in_scope ∙ ap (λ (l : List Bytes). l ++ env.config.target_name_spaces) empty in
    (
      record {
        unloaded = ground arith;
        in_scope = λ _. names ∙ sym targets;
        pods = λ _. found.pods;
        deployments = λ _. found.deployments;
        operators = λ _. found.operators;
      },
      ground arith,
      found.fresh,
    )

reset-names :
    (d : Discovery) (env env' : TestEnvironment) (cluster cluster' : Cluster)
    → reset d env cluster ≡ ok (env', cluster')
    → (env'.name_spaces_under_test ≡ []) × (env'.loaded ≡ env.loaded)
unfolding reset reset_oc
reset-names d env env' cluster cluster' h = ground arith

load_config_from_file_lem :
    (d : Discovery) (path : Bytes) (env : TestEnvironment)
    → env.loaded ≡ false
    → (load_config_from_file d path env).1 ≡ true
    → ((load_config_from_file d path env).0.name_spaces_under_test ≡ env.name_spaces_under_test)
      × ((load_config_from_file d path env).0.loaded ≡ true)
unfolding load_config_from_file
load_config_from_file_lem d path env off h = ground arith

-- The environment is to be discovered.
abbrev pub is_due : TestEnvironment → Bool
is_due env = not env.loaded || env.needs_refresh

-- Where a discovery returns, it leaves a consistent environment, whatever the one before it held.
load_and_refresh-discovers :
    (d : Discovery) (env env' : TestEnvironment) (cluster cluster' : Cluster)
    → (env.loaded ≡ false → env.name_spaces_under_test ≡ [])
    → is_due env ≡ true
    → load_and_refresh d env cluster ≡ ok (env', cluster')
    → IsConsistent env' × (env'.loaded ≡ true) × (env'.needs_refresh ≡ false)
unfolding load_and_refresh
load_and_refresh-discovers d env env' cluster cluster' unloaded due h =
    elim (Bool-cases env.loaded) [
      | inl on ↦
          let stale : env.needs_refresh ≡ true = ground arith in
          let ((clear, after), e, rest) =
            >>=-eq-ok (reset d env cluster) (λ s. do_autodiscover d s.0 s.1) (ground arith) in
          let (empty, same) = reset-names d env clear cluster after e in
          do_autodiscover-IsConsistent d clear env' after cluster' empty (same ∙ on) rest
      | inr off ↦
          let path = get_configuration_file_path_from_environment d in
          let read = load_config_from_file d path env in
          elim (Bool-cases read.1) [
            | inl done ↦
                let (names, on) = load_config_from_file_lem d path env off done in
                do_autodiscover-IsConsistent d read.0 env' cluster cluster' (names ∙ unloaded off)
                  on (ground arith)
            | inr failed ↦ absurd (ground arith)
          ]
    ]

load_and_refresh-stays :
    (d : Discovery) (env : TestEnvironment) (cluster : Cluster)
    → is_due env ≡ false
    → load_and_refresh d env cluster ≡ ok (env, cluster)
unfolding load_and_refresh
load_and_refresh-stays d env cluster rests = ground arith

-- The zero value of the singleton.
abbrev pub initial : TestEnvironment
initial = record {
  containers_under_test = [];
  partner_containers = [];
  debug_containers = [];
  pods_under_test = [];
  deployments_under_test = [];
  operators_under_test = [];
  name_spaces_under_test = [];
  crd_names = [];
  nodes_under_test = [];
  containers_to_exclude = [];
  test_orchestrator = none;
  config = record {
    target_pod_labels = [];
    target_name_spaces = [];
    test_target = no_target;
    partner = no_partner;
    crd_filters = [];
  };
  loaded = false;
  needs_refresh = false;
}

abbrev pub State : Type 0
State = TestEnvironment × Cluster

-- The sequences of the calls that change the environment: `LoadAndRefresh`, `SetNeedsRefresh` and
-- `ResetOc`; at each load the cluster may answer otherwise. A load that panics is recovered from by
-- Ginkgo, and the next call finds what it left; `log.Fatalf` ends the process. The flag tells
-- whether the last discovery, if there was one, has returned.
pub data Reach : Bool → State → Type 0 where
  start : (cluster : Cluster) → Reach true (initial, cluster)
  discover :
      {before : Bool} {s t : State} (d : Discovery)
      → Reach before s
      → is_due s.0 ≡ true
      → load_and_refresh d s.0 s.1 ≡ ok t
      → Reach true t
  rest :
      {ended : Bool} {s t : State} (d : Discovery)
      → Reach ended s
      → is_due s.0 ≡ false
      → load_and_refresh d s.0 s.1 ≡ ok t
      → Reach ended t
  halt :
      {before : Bool} {s : State} (d : Discovery) (x : Halted)
      → Reach before s
      → load_and_refresh d s.0 s.1 ≡ err x
      → x.why ≢ fatal
      → Reach false (x.environment, x.cluster)
  mark : {ended : Bool} {s : State} → Reach ended s → Reach ended (set_needs_refresh s.0, s.1)
  close : {ended : Bool} {s : State} → Reach ended s → Reach ended (reset_oc s.0 s.1)

-- What holds after a discovery that returned, and after one that did not: there, the environment
-- counts as loaded, and either it is to be refreshed or every load returns it as it is.
abbrev pub Outcome : Bool → State → Type 0
Outcome true s = IsConsistent s.0
Outcome false s =
    (s.0.loaded ≡ true)
    × ((s.0.needs_refresh ≡ true) ⊎ ((d : Discovery) → load_and_refresh d s.0 s.1 ≡ ok s))

Outcome-unloaded :
    (ended : Bool) (s : State)
    → Outcome ended s
    → s.0.loaded ≡ false
    → s.0.name_spaces_under_test ≡ []
Outcome-unloaded true s c off = c.unloaded off
Outcome-unloaded false s (on, _) off = absurd (ground arith)

ok-injective : {E A : Type 0} {a b : A} → ◌≡◌ {A = Result E A} (ok a) (ok b) → a ≡ b
ok-injective h = cc

halted-Outcome :
    (env : TestEnvironment) (cluster : Cluster) → env.loaded ≡ true → Outcome false (env, cluster)
halted-Outcome env cluster on = elim (Bool-cases env.needs_refresh) [
  | inl stale ↦ (on, inl stale)
  | inr fresh ↦ (on, inr (λ d. load_and_refresh-stays d env cluster (ground arith)))
]

marked-Outcome :
    (ended : Bool) (s : State) → Outcome ended s → Outcome ended (set_needs_refresh s.0, s.1)
unfolding set_needs_refresh
marked-Outcome true s c = ground arith
marked-Outcome false s (on, _) = (on, inl refl)

closed-Outcome : (ended : Bool) (s : State) → Outcome ended s → Outcome ended (reset_oc s.0 s.1)
unfolding reset_oc
closed-Outcome true s c = ground arith
closed-Outcome false s (on, _) = halted-Outcome (reset_oc s.0 s.1).0 (reset_oc s.0 s.1).1 on

-- After any sequence of loads, marks and resets, whatever the cluster answers at each of them: if
-- the last discovery returned, or there was none, the environment is consistent: once it is loaded,
-- its namespaces are those of the configuration, each as often as it stands there, and its pods,
-- deployments and operators are those of the test target. If the last discovery panicked, the
-- environment counts as loaded, and until it is marked every further load returns it as it is.
pub Reach-IsConsistent : (ended : Bool) (s : State) → Reach ended s → Outcome ended s
Reach-IsConsistent ended s (start cluster) = ground arith
Reach-IsConsistent ended t (discover {before} {s} d r due h) =
    (load_and_refresh-discovers d s.0 t.0 s.1 t.1
      (Outcome-unloaded before s (Reach-IsConsistent before s r)) due h).0
Reach-IsConsistent ended t (rest {s} d r rests h) =
    let same : s ≡ t = ok-injective (sym (load_and_refresh-stays d s.0 s.1 rests) ∙ h) in
    subst (λ u. Outcome ended u) same (Reach-IsConsistent ended s r)
Reach-IsConsistent ended t (halt {s} d x r h goes_on) =
    halted-Outcome x.environment x.cluster (load_and_refresh-halts d s.0 s.1 x h goes_on).0
Reach-IsConsistent ended t (mark {s} r) = marked-Outcome ended s (Reach-IsConsistent ended s r)
Reach-IsConsistent ended t (close {s} r) = closed-Outcome ended s (Reach-IsConsistent ended s r)

-- A refresh of a loaded environment does not read the test target and the partner that the
-- configuration holds, the exclusions from connectivity tests of the configuration file included:
-- with any others in their place it does the same.
pub refresh_forgets_target :
    (d : Discovery) (env : TestEnvironment) (cluster : Cluster) (target : TestTarget)
    (partner : TestPartner)
    → env.loaded ≡ true
    → env.needs_refresh ≡ true
    → load_and_refresh d
        (record env { config = record env.config { test_target = target; partner = partner } })
        cluster
      ≡ load_and_refresh d env cluster
unfolding load_and_refresh reset reset_oc
refresh_forgets_target d env cluster target partner on stale = ground arith
