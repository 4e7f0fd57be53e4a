-- ===== src/Lifecycle.antt =====
-- test-network-function/lifecycle/suite.go: the scaling of deployments and the draining of nodes.
--
-- A test is a function of the history of its actions, the last one first. What the cluster answers
-- to an action may depend on all that was done before: it is a field of `World`. A failed
-- expectation leaves the test by a panic, past which only deferred calls are made; `log.Fatalf`
-- ends the process without them.
pub mod Cordons
pub mod Scaling
pub mod Replicas
use test_network_function.Prelude.{
  ℕ, Bytes, codes, bytes_eq, str_eq, has_prefix, Map, lookup, insert, List, [], ◌∷◌, ◌++◌, Bool,
  true, false, not, ◌&&◌, ◌||◌, Option, none, some, Result, ok, err, ◌>>=◌, if◌then◌else◌,
}
use test_network_function.Prelude.Int.{ℤ, pos, eq_ℤ, ◌-ℤ◌, wrap_int}
use test_network_function.Handlers.Deployments.{Deployment}
use test_network_function.Config
use test_network_function.Config.Nodes.{Container, NodeConfig, Nodes, Containers}

-- What the tests do to the cluster and to the environment.
pub data Action : Type 0 where
  scale : Bytes → Bytes → ℤ → Action
  scale_hpa : Bytes → Bytes → ℤ → ℤ → Action
  drain : Bytes → Action
  uncordon : Bytes → Action
  reset_sessions : Action
  close_session : Config.ContainerIdentifier → Action
  set_needs_refresh : Action

abbrev pub History : Type 0
History = List Action

-- `DeploymentMap`
abbrev pub DeploymentMap : Type 0
DeploymentMap = Map Bytes Deployment

pub record World : Type 0 where
  -- What the deployments test reads in a namespace, if it passes.
  pub deployments : History → Bytes → Option DeploymentMap
  -- All deployments of the namespace are ready before the time is over.
  pub become_ready : History → Bytes → Bool
  -- The test behind the last action, which may have had its effect before it failed, passes.
  pub passes : History → Bool
  -- `tnf.NewTest` makes the test of a drain.
  pub drain_starts : History → Bool

pub data Abort : Type 0 where
  failed : Abort
  skipped : Abort
  fatal : Abort

pub record Stopped : Type 0 where
  pub why : Abort
  pub history : History

abbrev pub Run : Type 0 → Type 0
Run A = Result Stopped A

abbrev pub stop : {A : Type 0} → Abort → History → Run A
stop why h = err (record { why = why; history = h })

-- An action whose test has to pass.
unfoldable pub act : World → Action → History → Run History
act w a h = if w.passes (a ∷ h) then ok (a ∷ h) else stop failed (a ∷ h)

-- The test of the loop of `getDeployments`.
unfoldable pub is_ready : Deployment → Bool
is_ready d = not (
    not (eq_ℤ d.unavailable (pos 0))
    || not (eq_ℤ d.ready d.replicas)
    || not (eq_ℤ d.available d.replicas)
    || not (eq_ℤ d.up_to_date d.replicas))

unfoldable pub not_ready : DeploymentMap → List Bytes
unfolding is_ready
not_ready [] = []
not_ready ((name, d) ∷ ds) = let rest = not_ready ds in if is_ready d then rest else name ∷ rest

-- `getDeployments`: the deployments and the names of those that are not ready.
unfoldable pub get_deployments : World → Bytes → History → Run (DeploymentMap × List Bytes)
unfolding not_ready
get_deployments w ns h = elim (w.deployments h ns) [
  | none ↦ stop failed h
  | some ds ↦ ok (ds, not_ready ds)
]

unfoldable pub wait_for_all_deployments_ready : World → Bytes → History → Run History
wait_for_all_deployments_ready w ns h = if w.become_ready h ns then ok h else stop failed h

unfoldable pub drain_node : World → Bytes → History → Run History
drain_node w node h =
    if w.drain_starts h
    then (if w.passes (drain node ∷ h) then ok (drain node ∷ h) else stop fatal (drain node ∷ h))
    else stop failed h

unfoldable pub uncordon_node : World → Bytes → History → Run History
unfolding act
uncordon_node w node h = act w (uncordon node) h

unfoldable pub wait_everywhere : World → List Bytes → History → Run History
unfolding wait_for_all_deployments_ready
wait_everywhere w [] h = ok h
wait_everywhere w (ns ∷ nss) h = do
  h' ← wait_for_all_deployments_ready w ns h
  wait_everywhere w nss h'

-- The loop over the namespaces behind a drain.
unfoldable pub check_replicas : World → Bytes → List Bytes → History → Run History
unfolding wait_for_all_deployments_ready get_deployments uncordon_node
check_replicas w node [] h = ok h
check_replicas w node (ns ∷ nss) h = do
  h' ← wait_for_all_deployments_ready w ns h
  read ← get_deployments w ns h'
  elim read.1 [
    | [] ↦ check_replicas w node nss h'
    | _ ∷ _ ↦ do h'' ← uncordon_node w node h'; stop failed h''
  ]

-- The body of the loop over the nodes, for a node with a deployment.
unfoldable pub recreate_pods : World → List Bytes → Bytes → History → Run History
unfolding drain_node check_replicas uncordon_node wait_everywhere
recreate_pods w nss node h = do
  drained ← drain_node w node (reset_sessions ∷ h)
  checked ← check_replicas w node nss drained
  uncordoned ← uncordon_node w node checked
  wait_everywhere w nss uncordoned

unfoldable pub recreate_on : World → List Bytes → Nodes → History → Run History
unfolding recreate_pods
recreate_on w nss [] h = ok h
recreate_on w nss ((name, n) ∷ nodes) h = do
  h' ← if n.deployment then recreate_pods w nss n.name h else ok h
  recreate_on w nss nodes h'

unfoldable pub add_all : DeploymentMap → DeploymentMap → DeploymentMap
add_all [] m = m
add_all ((k, d) ∷ ds) m = add_all ds (insert k d m)

-- The first loop of `testPodsRecreation`, which skips the test at a deployment that is not ready.
unfoldable pub all_deployments : World → List Bytes → History → DeploymentMap → Run DeploymentMap
unfolding get_deployments add_all
all_deployments w [] h m = ok m
all_deployments w (ns ∷ nss) h m = do
  read ← get_deployments w ns h
  elim read.1 [ [] ↦ all_deployments w nss h (add_all read.0 m) | _ ∷ _ ↦ stop skipped h ]

-- A deferred `env.SetNeedsRefresh()`.
unfoldable pub then_refresh : Run History → Run History
then_refresh (ok h) = ok (set_needs_refresh ∷ h)
then_refresh (err s) = elim s.why [
  | fatal ↦ err s
  | _ ↦ err (record s { history = set_needs_refresh ∷ s.history })
]

unfoldable pub test_pods_recreation : World → List Bytes → Nodes → History → Run History
unfolding all_deployments recreate_on then_refresh
test_pods_recreation w nss nodes h = do
  deployments ← all_deployments w nss h []
  elim deployments [ [] ↦ stop skipped h | _ ∷ _ ↦ then_refresh (recreate_on w nss nodes h) ]
