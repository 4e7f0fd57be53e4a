-- ===== src/Lifecycle/Scaling.antt =====
-- test-network-function/lifecycle/suite.go: scaling in and out, and the last attempt to restore.
use test_network_function.Prelude.{
  Bytes, codes, bytes_eq, str_eq, has_prefix, Map, lookup, List, [], ◌∷◌, ◌++◌, Bool, not, ◌&&◌,
  none, some, ok, err, ◌>>=◌, if◌then◌else◌,
}
use test_network_function.Prelude.Int.{ℤ, pos, eq_ℤ, ◌-ℤ◌, wrap_int}
use test_network_function.Handlers.Deployments.{Deployment}
use test_network_function.Config
use test_network_function.Config.{ContainerIdentifier, Hpa}
use test_network_function.Config.Nodes.{Containers}
use test_network_function.Lifecycle.{
  History, World, skipped, fatal, Run, stop, act, scale, scale_hpa, close_session,
  set_needs_refresh, get_deployments, wait_for_all_deployments_ready,
}

-- The test of `closeOcSessionsByDeployment`.
unfoldable pub runs_for : Config.Deployment → ContainerIdentifier → Bool
runs_for d cid = str_eq cid.namespace d.namespace && has_prefix (d.name ++ codes "-") cid.pod_name

-- `closeOcSessionsByDeployment`: the containers that are left, and the history.
unfoldable pub close_oc_sessions_by_deployment :
    Containers → Config.Deployment → History → Containers × History
unfolding runs_for
close_oc_sessions_by_deployment [] d h = ([], h)
close_oc_sessions_by_deployment ((cid, c) ∷ containers) d h =
    let (left, h') =
      close_oc_sessions_by_deployment containers d
        (if runs_for d cid then close_session cid ∷ h else h) in
    (if runs_for d cid then left else (cid, c) ∷ left, h')

unfoldable pub run_scaling_test : World → Config.Deployment → History → Run History
unfolding act wait_for_all_deployments_ready
run_scaling_test w d h = do
  h' ← act w (scale d.namespace d.name d.replicas) h
  wait_for_all_deployments_ready w d.namespace h'

unfoldable pub run_hpa_scaling_test : World → Config.Deployment → History → Run History
unfolding act wait_for_all_deployments_ready
run_hpa_scaling_test w d h = do
  h' ← act w (scale_hpa d.namespace d.hpa.hpa_name d.hpa.min_replicas d.hpa.max_replicas) h
  wait_for_all_deployments_ready w d.namespace h'

abbrev pub with_replicas : Config.Deployment → ℤ → Config.Deployment
with_replicas d n = record d { replicas = n }

abbrev pub with_limits : Config.Deployment → ℤ → Config.Deployment
with_limits d n = record d { hpa = record d.hpa { min_replicas = n; max_replicas = n } }

-- The body of the loop of `testScaling` behind the closing of the sessions.
unfoldable pub scale_in_and_out : World → Config.Deployment → History → Run History
unfolding run_scaling_test run_hpa_scaling_test wrap_int
scale_in_and_out w d h =
    if not (str_eq d.hpa.hpa_name [])
    then (do
      inside ← run_hpa_scaling_test w (with_limits d (wrap_int (d.replicas -ℤ pos 1))) h
      run_hpa_scaling_test w (with_limits d d.replicas) inside)
    else (do
      inside ← run_scaling_test w (with_replicas d (wrap_int (d.replicas -ℤ pos 1))) h
      run_scaling_test w (with_replicas d d.replicas) inside)

unfoldable pub scale_all : World → List Config.Deployment → Containers → History → Run History
unfolding close_oc_sessions_by_deployment scale_in_and_out
scale_all w [] containers h = ok h
scale_all w (d ∷ ds) containers h = do
  let (left, closed) = close_oc_sessions_by_deployment containers d h
  h' ← scale_in_and_out w d closed
  scale_all w ds left h'

-- `deployments[name].Replicas`, which is zero for a key that is missing.
unfoldable pub current_replicas : Map Bytes Deployment → Bytes → ℤ
current_replicas m name = elim (lookup name m) [ none ↦ pos 0 | some d ↦ d.replicas ]

-- The body of the loop of `restoreDeployments`.
unfoldable pub restore_deployment : World → Config.Deployment → History → Run History
unfolding get_deployments wait_for_all_deployments_ready run_hpa_scaling_test run_scaling_test
    current_replicas
restore_deployment w d h = do
  read ← get_deployments w d.namespace h
  ready ← elim read.1 [ [] ↦ ok h | _ ∷ _ ↦ wait_for_all_deployments_ready w d.namespace h ]
  limited ← (if not (str_eq d.hpa.hpa_name []) then run_hpa_scaling_test w d ready else ok ready)
  (if not (eq_ℤ (current_replicas read.0 d.name) d.replicas)
      then (do scaled ← run_scaling_test w d limited; ok (set_needs_refresh ∷ scaled))
      else ok limited)

unfoldable pub restore_deployments : World → List Config.Deployment → History → Run History
unfolding restore_deployment
restore_deployments w [] h = ok h
restore_deployments w (d ∷ ds) h = do h' ← restore_deployment w d h; restore_deployments w ds h'

-- The deferred calls of `testScaling`, after a failure too; the failure is kept.
unfoldable pub then_restore : World → List Config.Deployment → Run History → Run History
unfolding restore_deployments
then_restore w ds (ok h) = restore_deployments w ds (set_needs_refresh ∷ h)
then_restore w ds (err s) = elim s.why [
  | fatal ↦ err s
  | _ ↦ elim (restore_deployments w ds (set_needs_refresh ∷ s.history)) [
    | ok h ↦ err (record s { history = h })
    | err s' ↦ err s'
  ]
]

-- The test is skipped without deployments.
unfoldable pub scale_or_skip : World → List Config.Deployment → Containers → History → Run History
unfolding scale_all
scale_or_skip w [] containers h = stop skipped h
scale_or_skip w (d ∷ ds) containers h = scale_all w (d ∷ ds) containers h

unfoldable pub test_scaling : World → List Config.Deployment → Containers → History → Run History
unfolding scale_or_skip then_restore
test_scaling w ds containers h = then_restore w ds (scale_or_skip w ds containers h)
