-- ===== src/Lifecycle/Replicas.antt =====
-- The replica counts that the scaling test leaves, and the reading of them by the last attempt to
-- restore.
use test_network_function.Prelude.{
  ◌≡◌, ◌≢◌, inl, inr, refl, ap, ◌∙◌, Bytes, bytes_eq, str_eq, str_eq_iff, Map, lookup, List, [],
  ◌∷◌, ◌++◌, List-cases, false, ◌&&◌, Bool-cases, Option, none, some, ok, >>=-eq-ok, Result-cases,
  arith, if◌then◌else◌,
}
use test_network_function.Prelude.Int.{ℤ, pos, eq_ℤ_iff, ◌-ℤ◌, wrap_int}
use test_network_function.Handlers.Deployments.{Deployment, deployment_key}
use test_network_function.Config
use test_network_function.Config.{ContainerIdentifier}
use test_network_function.Config.Nodes.{Containers}
use test_network_function.Lifecycle.{
  History, World, act, scale, scale_hpa, close_session, wait_for_all_deployments_ready,
  get_deployments, set_needs_refresh, not_ready,
}
use test_network_function.Lifecycle.Scaling.{
  runs_for, close_oc_sessions_by_deployment, run_scaling_test, run_hpa_scaling_test, with_replicas,
  with_limits, scale_in_and_out, scale_all, current_replicas, restore_deployment,
}

-- The count that a deployment was last scaled to.
abbrev pub last_scale : Bytes → Bytes → History → Option ℤ
last_scale ns name [] = none
last_scale ns name (scale ns' name' n ∷ h) =
    let before = last_scale ns name h in
    if str_eq ns' ns && str_eq name' name then some n else before
last_scale ns name (_ ∷ h) = last_scale ns name h

-- The count of the last of the deployments that has the name and no autoscaler, or else the one
-- that was there.
abbrev pub last_count : Bytes → Bytes → List Config.Deployment → Option ℤ → Option ℤ
last_count ns name [] found = found
last_count ns name (d ∷ ds) found = last_count ns name ds (
    if str_eq d.hpa.hpa_name [] && (str_eq d.namespace ns && str_eq d.name name)
    then some d.replicas
    else found)

close_sessions-last_scale :
    (ns name : Bytes) (containers : Containers) (d : Config.Deployment) (h : History)
    → last_scale ns name (close_oc_sessions_by_deployment containers d h).1 ≡ last_scale ns name h
unfolding close_oc_sessions_by_deployment
close_sessions-last_scale ns name [] d h = refl
close_sessions-last_scale ns name ((cid, c) ∷ containers) d h = elim (Bool-cases (runs_for d cid)) [
  | inl e ↦ ground (arith, close_sessions-last_scale ns name containers d (close_session cid ∷ h))
  | inr e ↦ ground (arith, close_sessions-last_scale ns name containers d h)
]

-- A scaling test that passes has added its action alone.
run_scaling_test-ok :
    (w : World) (d : Config.Deployment) (h h' : History)
    → run_scaling_test w d h ≡ ok h'
    → h' ≡ scale d.namespace d.name d.replicas ∷ h
unfolding run_scaling_test act wait_for_all_deployments_ready
run_scaling_test-ok w d h h' e = ground arith

run_hpa_scaling_test-ok :
    (w : World) (d : Config.Deployment) (h h' : History)
    → run_hpa_scaling_test w d h ≡ ok h'
    → h' ≡ scale_hpa d.namespace d.hpa.hpa_name d.hpa.min_replicas d.hpa.max_replicas ∷ h
unfolding run_hpa_scaling_test act wait_for_all_deployments_ready
run_hpa_scaling_test-ok w d h h' e = ground arith

scale_in_and_out-last_scale :
    (ns name : Bytes) (w : World) (d : Config.Deployment) (h h' : History)
    → scale_in_and_out w d h ≡ ok h'
    → last_scale ns name h' ≡ (
        if str_eq d.hpa.hpa_name [] && (str_eq d.namespace ns && str_eq d.name name)
        then some d.replicas
        else last_scale ns name h)
unfolding scale_in_and_out
scale_in_and_out-last_scale ns name w d h h' e = elim (Bool-cases (str_eq d.hpa.hpa_name [])) [
  | inr scaler ↦ elim (Result-cases (run_hpa_scaling_test w (limited less) h)) [
    | inl (s, bad) ↦ absurd (ground arith)
    | inr (inside, first) ↦
        let a = run_hpa_scaling_test-ok w (limited less) h inside first in
        let b = run_hpa_scaling_test-ok w (limited d.replicas) inside h' (ground arith) in
        ground (arith, a, b)
  ]
  | inl plain ↦ elim (Result-cases (run_scaling_test w (with_replicas d less) h)) [
    | inl (s, bad) ↦ absurd (ground arith)
    | inr (inside, first) ↦
        let a = run_scaling_test-ok w (with_replicas d less) h inside first in
        let b = run_scaling_test-ok w (with_replicas d d.replicas) inside h' (ground arith) in
        ground (arith, a, b)
  ]
]
  where
    less : ℤ
    less = wrap_int (d.replicas -ℤ pos 1)

    limited : ℤ → Config.Deployment
    limited n = with_limits d n

-- When the loop of the scaling test comes to its end, every deployment without an autoscaler was
-- last scaled to the count that it had, of deployments that share a name to that of the last; no
-- other deployment was scaled.
pub scale_all-last_scale :
    (ns name : Bytes) (w : World) (ds : List Config.Deployment) (containers : Containers)
    (h h' : History)
    → scale_all w ds containers h ≡ ok h'
    → last_scale ns name h' ≡ last_count ns name ds (last_scale ns name h)
unfolding scale_all
scale_all-last_scale ns name w [] containers h h' e = ground arith
scale_all-last_scale ns name w (d ∷ ds) containers h h' e =
    let closed = close_oc_sessions_by_deployment containers d h in
    let (inside, one, rest) = >>=-eq-ok (scale_in_and_out w d closed.1) _ e in
    scale_all-last_scale ns name w ds closed.0 inside h' rest
    ∙ ap (last_count ns name ds) (
        ground (
          arith,
          scale_in_and_out-last_scale ns name w d closed.1 inside one,
          close_sessions-last_scale ns name containers d h,
        ))

-- The keys of the deployments of a namespace, as the deployments test writes them.
abbrev pub AllKeyed : Bytes → Map Bytes Deployment → Type 0
AllKeyed ns [] = Unit
AllKeyed ns ((key, d) ∷ m) = ((name : Bytes) × (key ≡ deployment_key ns name)) × AllKeyed ns m

-- No byte of the name is a colon, as in every name of Kubernetes.
abbrev pub NoColon : Bytes → Type 0
NoColon [] = Unit
NoColon (c ∷ s) = (c ≢ b':') × NoColon s

colon_inside : (ns rest name : Bytes) → NoColon name → str_eq (ns ++ b':' ∷ rest) name ≡ false
unfolding str_eq
colon_inside [] rest [] h = refl
colon_inside [] rest (c ∷ name) (h, hs) = ground arith
colon_inside (n ∷ ns) rest [] h = refl
colon_inside (n ∷ ns) rest (c ∷ name) (h, hs) = ground (arith, colon_inside ns rest name hs)

lookup_name :
    (ns name : Bytes) (m : Map Bytes Deployment)
    → AllKeyed ns m
    → NoColon name
    → lookup name m ≡ none
unfolding lookup deployment_key
lookup_name ns name [] keyed plain = refl
lookup_name ns name ((key, d) ∷ m) ((n, e), keyed) plain =
    ground (arith, e, colon_inside ns n name plain, lookup_name ns name m keyed plain)

-- The last attempt to restore reads a count of zero for every deployment, whatever the cluster
-- reports, since it looks for the bare name in a map whose keys hold the namespace too. So a
-- deployment with replicas and without an autoscaler is scaled to its count again, also when it is
-- ready and already has this count.
pub restore_deployment_rescales :
    (w : World) (d : Config.Deployment) (h h' : History) (m : Map Bytes Deployment)
    → w.deployments h d.namespace ≡ some m
    → AllKeyed d.namespace m
    → NoColon d.name
    → d.replicas ≢ pos 0
    → d.hpa.hpa_name ≡ []
    → restore_deployment w d h ≡ ok h'
    → h' ≡ set_needs_refresh ∷ scale d.namespace d.name d.replicas ∷ h
unfolding restore_deployment get_deployments current_replicas wait_for_all_deployments_ready
restore_deployment_rescales w d h h' m read keyed plain some_left unscaled e =
    let missing = lookup_name d.namespace d.name m keyed plain in
    let scaled = run_scaling_test-ok w d h in
    elim (Result-cases (run_scaling_test w d h)) [
      | inl (s, bad) ↦ elim (List-cases (not_ready m)) [
        | inl all ↦
            absurd
              (ground (arith, missing, str_eq_iff d.hpa.hpa_name [], eq_ℤ_iff (pos 0) d.replicas))
        | inr (x, xs, left) ↦
            absurd
              (ground (arith, missing, str_eq_iff d.hpa.hpa_name [], eq_ℤ_iff (pos 0) d.replicas))
      ]
      | inr (after, good) ↦ elim (List-cases (not_ready m)) [
        | inl all ↦ ground (
          arith,
          scaled after good,
          missing,
          str_eq_iff d.hpa.hpa_name [],
          eq_ℤ_iff (pos 0) d.replicas,
        )
        | inr (x, xs, left) ↦ ground (
          arith,
          scaled after good,
          missing,
          str_eq_iff d.hpa.hpa_name [],
          eq_ℤ_iff (pos 0) d.replicas,
        )
      ]
    ]
