-- ===== src/Handlers/Drain.antt =====
-- pkg/tnf/handlers/deploymentsdrain/deploymentsdrain.go: draining a node of the cluster. The text
-- of a duration (`time.Duration.String`) is an argument.
use test_network_function.Prelude.{
  ℕ, ◌+◌, ◌*◌, ◌/◌, ◌≡◌, refl, Bytes, codes, List, [], ◌∷◌, ◌++◌, none, some, ok,
}
use test_network_function.Prelude.Int.{ℤ, pos, negsuc, sub_ℕ, wrap_int}
use test_network_function.Reel.{
  Step, Handler, Reel, Session, Batcher, timed_out, running, has_expectations, run,
}
use test_network_function.Reel.Ending.{run_step_never_ends}
use test_network_function.Tnf.{error, success}

pub record DeploymentsDrain : Type 0 where
  pub result : ℤ
  pub timeout : ℕ
  pub args : List Bytes
  pub node : Bytes

-- The quotient of Go, which is truncated towards zero.
unfoldable pub hundredth : ℤ → ℤ
hundredth (pos n) = pos (n / 100)
hundredth (negsuc n) = sub_ℕ 0 ((n + 1) / 100)

-- The drain's own timeout is 90 percent of the test's, in nanoseconds of 64 bits.
unfoldable pub drain_timeout : ℕ → ℤ
unfolding hundredth wrap_int
drain_timeout timeout = hundredth (wrap_int (pos (timeout * 90)))

unfoldable pub new_deployments_drain : (ℤ → Bytes) → ℕ → Bytes → DeploymentsDrain
unfolding drain_timeout
new_deployments_drain duration_string timeout node_name = record {
  result = error;
  timeout = timeout;
  args =
      codes "oc"
      ∷ codes "adm"
      ∷ codes "drain"
      ∷ node_name
      ∷ codes "--pod-selector=pod-template-hash"
      ∷ codes "--disable-eviction=true"
      ∷ codes "--delete-emptydir-data=true"
      ∷ codes "--ignore-daemonsets=true"
      ∷ (codes "--timeout=" ++ duration_string (drain_timeout timeout))
      ∷ codes "&&"
      ∷ codes "echo"
      ∷ codes "SUCCESS"
      ∷ [];
  node = node_name;
}

unfoldable pub drain_step : DeploymentsDrain → Step
drain_step dd = record { execute = []; expect = codes "SUCCESS" ∷ []; timeout = dd.timeout }

-- What a timeout is answered with.
unfoldable pub uncordon_step : DeploymentsDrain → Step
uncordon_step dd = record {
  execute = codes "oc adm uncordon " ++ dd.node;
  expect = codes "(?m).*uncordoned" ∷ [];
  timeout = dd.timeout;
}

unfoldable pub deployments_drain_handler : Handler DeploymentsDrain
unfolding drain_step uncordon_step
deployments_drain_handler = record {
  reel_first = λ dd. ok (dd, some (drain_step dd));
  reel_match = λ pattern before m dd. ok (record dd { result = success }, none);
  reel_timeout = λ dd. ok (dd, some (uncordon_step dd));
  reel_eof = λ dd. dd;
}

-- If the session times out in each round and the error channel is silent, each timeout is answered
-- with the uncordon command again, so that the run of a drain does not end, whatever fuel is given.
pub drain_never_ends :
    (r : Reel) (session : Session) (dd : DeploymentsDrain)
    → ((i : ℕ) (bs : List Batcher) (t : ℕ) → session.expect_batch i bs t ≡ timed_out)
    → ((i : ℕ) → session.channel_error i ≡ none)
    → (fuel : ℕ) → run deployments_drain_handler r session fuel dd ≡ running
unfolding run deployments_drain_handler uncordon_step drain_step has_expectations
drain_never_ends r session dd late silent fuel =
    run_step_never_ends deployments_drain_handler r session (λ h. (h, uncordon_step h, refl, refl))
      late silent fuel 0 (drain_step dd) dd refl
