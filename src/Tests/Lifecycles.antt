-- ===== src/Tests/Lifecycles.antt =====
-- The scaling and the draining tests at a concrete cluster.
use test_network_function.Prelude.{
  ◌≡◌, refl, codes, bytes_eq, str_eq, lookup, [], ◌∷◌, true, false, none, some, ok, arith,
}
use test_network_function.Prelude.Int.{pos, ◌-ℤ◌}
use test_network_function.Handlers.Deployments.{Deployment, deployment_key}
use test_network_function.Config
use test_network_function.Config.{no_hpa}
use test_network_function.Config.Nodes.{Nodes}
use test_network_function.Lifecycle.{
  History, World, DeploymentMap, scale, set_needs_refresh, test_pods_recreation,
}
use test_network_function.Lifecycle.Cordons.{Leaves, test_pods_recreation-Leaves}
use test_network_function.Lifecycle.Scaling.{scale_all, restore_deployment}
use test_network_function.Lifecycle.Replicas.{
  last_scale, last_count, scale_all-last_scale, restore_deployment_rescales,
}

abbrev ready : Deployment
ready = record {
  replicas = pos 2;
  ready = pos 2;
  up_to_date = pos 2;
  available = pos 2;
  unavailable = pos 0;
}

abbrev one_deployment : DeploymentMap
one_deployment = (codes "tnf:d", ready) ∷ []

-- Every test passes, and every deployment is ready.
abbrev calm : World
calm = record {
  deployments = λ h ns. some one_deployment;
  become_ready = λ h ns. true;
  passes = λ h. true;
  drain_starts = λ h. true;
}

-- No wait ends in time.
abbrev slow : World
slow = record calm { become_ready = λ h ns. false }

abbrev worker : Nodes
worker =
    (
      codes "b",
      record {
        name = codes "b";
        node = record { name = codes "b"; labels = [] };
        oc = none;
        deployment = true;
        debug = true;
      },
    )
    ∷ []

test_pods_recreation-Leaves_example :
    Leaves calm (codes "tnf" ∷ []) (test_pods_recreation calm (codes "tnf" ∷ []) worker [])
test_pods_recreation-Leaves_example =
    test_pods_recreation-Leaves calm (codes "tnf" ∷ []) worker [] refl

abbrev deployment : Config.Deployment
deployment = record { name = codes "d"; namespace = codes "tnf"; replicas = pos 2; hpa = no_hpa }

abbrev scaled : History
scaled = scale (codes "tnf") (codes "d") (pos 2) ∷ scale (codes "tnf") (codes "d") (pos 1) ∷ []

scaling : scale_all calm (deployment ∷ []) [] [] ≡ ok scaled
unfolding scale_all str_eq ◌-ℤ◌
scaling = refl

scale_all-last_scale_example :
    last_scale (codes "tnf") (codes "d") scaled
    ≡ last_count (codes "tnf") (codes "d") (deployment ∷ []) none
scale_all-last_scale_example =
    scale_all-last_scale (codes "tnf") (codes "d") calm (deployment ∷ []) [] [] scaled scaling

abbrev rescaled : History
rescaled = set_needs_refresh ∷ scale (codes "tnf") (codes "d") (pos 2) ∷ []

rescaling : restore_deployment calm deployment [] ≡ ok rescaled
unfolding restore_deployment str_eq lookup
rescaling = refl

restore_deployment_rescales_example :
    rescaled ≡ set_needs_refresh ∷ scale (codes "tnf") (codes "d") (pos 2) ∷ []
restore_deployment_rescales_example =
    restore_deployment_rescales calm deployment [] rescaled one_deployment refl
      ((codes "d", unfold deployment_key in refl), tt) (λ e. omega arith, tt) (λ e. cc) refl
      rescaling
