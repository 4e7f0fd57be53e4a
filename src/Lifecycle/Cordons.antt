-- ===== src/Lifecycle/Cordons.antt =====
-- Which nodes the drain test leaves cordoned.
use test_network_function.Prelude.{
  ◌≡◌, ◌⊎◌, inl, inr, refl, sym, subst, ap, ◌∙◌, Bytes, bytes_eq, str_eq, str_eq_iff, List, [], ◌∷◌,
  List-cases, Bool, true, false, Bool-cases, none, Option-cases, ok, err, ◌>>=◌, Result-cases,
  arith, if◌then◌else◌,
}
use test_network_function.Config.Nodes.{Nodes}
use test_network_function.Lifecycle.{
  History, Abort, DeploymentMap, World, failed, skipped, fatal, Stopped, Run, act, get_deployments,
  drain, uncordon, reset_sessions, set_needs_refresh, wait_for_all_deployments_ready, drain_node,
  uncordon_node, wait_everywhere, check_replicas, recreate_pods, recreate_on, all_deployments,
  add_all, then_refresh, test_pods_recreation, not_ready,
}

abbrev remove : Bytes → List Bytes → List Bytes
remove n [] = []
remove n (m ∷ ms) = let rest = remove n ms in if str_eq m n then rest else m ∷ rest

-- The nodes that a drain was sent to, and no uncordon since whose test passed. A drain whose own
-- timeout uncordons the node counts too; it ends the process.
abbrev pub cordoned : World → History → List Bytes
cordoned w [] = []
cordoned w (drain n ∷ h) = n ∷ cordoned w h
cordoned w (uncordon n ∷ h) =
    let before = cordoned w h in if w.passes (uncordon n ∷ h) then remove n before else before
cordoned w (_ ∷ h) = cordoned w h

abbrev pub IsAmong : Bytes → List Bytes → Type 0
IsAmong ns [] = ⊥
IsAmong ns (n ∷ nss) = (n ≡ ns) ⊎ IsAmong ns nss

-- At this point of the run, the wait for the deployments of one of the namespaces is over too late,
-- or the reading of them fails.
abbrev pub Late : World → List Bytes → History → Type 0
Late w nss h =
    (ns : Bytes) × IsAmong ns nss × ((w.become_ready h ns ≡ false) ⊎ (w.deployments h ns ≡ none))

-- The run ends at a history that is late, or with an uncordon of the node that fails.
abbrev pub IsUnfinished : World → List Bytes → Bytes → History → Type 0
IsUnfinished w nss node h =
    Late w nss h ⊎ ((h' : History) × (h ≡ uncordon node ∷ h') × (w.passes h ≡ false))

wait_everywhere_outcome :
    (w : World) (nss : List Bytes) (h : History)
    → (wait_everywhere w nss h ≡ ok h)
      ⊎ (wait_everywhere w nss h ≡ err (record { why = failed; history = h }))
unfolding wait_everywhere wait_for_all_deployments_ready
wait_everywhere_outcome w [] h = inl refl
wait_everywhere_outcome w (ns ∷ nss) h = elim (Bool-cases (w.become_ready h ns)) [
  | inl e ↦ elim (wait_everywhere_outcome w nss h) [
    | inl e' ↦ inl (ground arith)
    | inr e' ↦ inr (ground arith)
  ]
  | inr e ↦ inr (ground arith)
]

Late-later :
    (w : World) (n : Bytes) (nss : List Bytes) (h : History) → Late w nss h → Late w (n ∷ nss) h
Late-later w n nss h (ns, among, why) = (ns, inr among, why)

-- The check ends as it began, or it is late and stops there, or it stops after an uncordon.
check_replicas_outcome :
    (w : World) (node : Bytes) (nss : List Bytes) (h : History)
    → (check_replicas w node nss h ≡ ok h)
      ⊎ (((check_replicas w node nss h ≡ err (record { why = failed; history = h })) × Late w nss h)
          ⊎ (check_replicas w node nss h
              ≡ err (record { why = failed; history = uncordon node ∷ h })))
unfolding check_replicas wait_for_all_deployments_ready get_deployments uncordon_node act
check_replicas_outcome w node [] h = inl refl
check_replicas_outcome w node (ns ∷ nss) h = elim (Bool-cases (w.become_ready h ns)) [
  | inr e ↦ inr (inl (ground arith, (ns, inl refl, inl e)))
  | inl e ↦ elim (Option-cases (w.deployments h ns)) [
    | inl e' ↦ inr (inl (ground arith, (ns, inl refl, inr e')))
    | inr (ds, e') ↦ elim (List-cases (not_ready ds)) [
      | inl none_left ↦ elim (check_replicas_outcome w node nss h) [
        | inl done ↦ inl (ground arith)
        | inr (inl (late, why)) ↦ inr (inl (ground arith, Late-later w ns nss h why))
        | inr (inr stopped) ↦ inr (inr (ground arith))
      ]
      | inr (name, names, left) ↦ elim (Bool-cases (w.passes (uncordon node ∷ h))) [
        | inl passed ↦ inr (inr (ground arith))
        | inr not_passed ↦ inr (inr (ground arith))
      ]
    ]
  ]
]

-- What the loop over the nodes leaves behind.
abbrev Stays : World → List Bytes → Run History → Type 0
Stays w nss (ok h) = cordoned w h ≡ []
Stays w nss (err s) =
    (s.why ≡ fatal)
    ⊎ ((cordoned w s.history ≡ [])
        ⊎ ((node : Bytes) × (cordoned w s.history ≡ node ∷ []) × IsUnfinished w nss node s.history))

-- What the test leaves behind: nothing, unless the process was ended; or else one node, whose round
-- of the test was not finished when the deferred call marked the environment.
abbrev pub Leaves : World → List Bytes → Run History → Type 0
Leaves w nss (ok h) = cordoned w h ≡ []
Leaves w nss (err s) =
    (s.why ≡ fatal)
    ⊎ ((cordoned w s.history ≡ [])
        ⊎ ((node : Bytes) × (h : History) × (s.history ≡ set_needs_refresh ∷ h)
            × (cordoned w s.history ≡ node ∷ [])
            × IsUnfinished w nss node h))

remove_last : (node : Bytes) → remove node (node ∷ []) ≡ []
remove_last node = ground (arith, str_eq_iff node node)

Stays-eq :
    (w : World) (nss : List Bytes) (m r : Run History) → m ≡ r → Stays w nss r → Stays w nss m
Stays-eq w nss m r e l = subst (λ (t : Run History). Stays w nss t) (sym e) l

Stays->>= :
    (w : World) (nss : List Bytes) (m : Run History) (f : History → Run History)
    → Stays w nss m
    → ((h : History) → cordoned w h ≡ [] → Stays w nss (f h))
    → Stays w nss (m >>= f)
Stays->>= w nss (ok h) f l k = k h l
Stays->>= w nss (err s) f l k = l

-- After an uncordon of the only drained node, the run that fails leaves it only if the uncordon
-- failed.
uncordoned-Stays :
    (w : World) (nss : List Bytes) (node : Bytes) (h : History)
    → cordoned w h ≡ node ∷ []
    → Stays w nss (err (record { why = failed; history = uncordon node ∷ h }))
uncordoned-Stays w nss node h only = elim (Bool-cases (w.passes (uncordon node ∷ h))) [
  | inl e ↦ inr (inl (ground (arith, only, remove_last node)))
  | inr e ↦ inr (inr (node, ground (arith, only), inr (h, refl, e)))
]

recreate_pods-Stays :
    (w : World) (nss : List Bytes) (node : Bytes) (h : History)
    → cordoned w h ≡ []
    → Stays w nss (recreate_pods w nss node h)
unfolding recreate_pods drain_node uncordon_node act
recreate_pods-Stays w nss node h clean =
    let begun : History = reset_sessions ∷ h in
    let drained : History = drain node ∷ begun in
    let undone : History = uncordon node ∷ drained in
    let only : cordoned w drained ≡ node ∷ [] = ground (arith, clean) in
    let whole = recreate_pods w nss node h in
    let stopped = uncordoned-Stays w nss node drained only in
    let halt = λ (e : whole ≡ err (record { why = failed; history = undone })).
      Stays-eq w nss whole (err (record { why = failed; history = undone })) e stopped in
    elim (Bool-cases (w.drain_starts begun)) [
      | inr e ↦
          Stays-eq w nss whole (err (record { why = failed; history = begun })) (ground arith)
            (inr (inl clean))
      | inl starts ↦ elim (Bool-cases (w.passes drained)) [
        | inr e ↦
            Stays-eq w nss whole (err (record { why = fatal; history = drained })) (ground arith)
              (inl refl)
        | inl e ↦ elim (check_replicas_outcome w node nss drained) [
          | inr (inl (late, why)) ↦
              Stays-eq w nss whole (err (record { why = failed; history = drained })) (ground arith)
                (inr (inr (node, only, inl why)))
          | inr (inr checked) ↦ halt (ground arith)
          | inl checked ↦ elim (Bool-cases (w.passes undone)) [
            | inr e' ↦ halt (ground arith)
            | inl e' ↦ elim (wait_everywhere_outcome w nss undone) [
              | inl waited ↦
                  Stays-eq w nss whole (ok undone) (ground arith)
                    (ground (arith, only, remove_last node))
              | inr late ↦ halt (ground arith)
            ]
          ]
        ]
      ]
    ]

recreate_on-Stays :
    (w : World) (nss : List Bytes) (nodes : Nodes) (h : History)
    → cordoned w h ≡ []
    → Stays w nss (recreate_on w nss nodes h)
unfolding recreate_on
recreate_on-Stays w nss [] h clean = clean
recreate_on-Stays w nss ((name, n) ∷ nodes) h clean =
    Stays->>= w nss (if n.deployment then recreate_pods w nss n.name h else ok h)
      (λ h'. recreate_on w nss nodes h') (body n.deployment) (recreate_on-Stays w nss nodes)
  where
    body : (b : Bool) → Stays w nss (if b then recreate_pods w nss n.name h else ok h)
    body true = recreate_pods-Stays w nss n.name h clean
    body false = clean

-- The deferred call changes nothing of what the loop leaves.
marked-Leaves :
    (w : World) (nss : List Bytes) (why : Abort) (h : History)
    → Stays w nss (err (record { why = why; history = h }))
    → Leaves w nss (err (record { why = why; history = set_needs_refresh ∷ h }))
marked-Leaves w nss why h (inl ended) = inl ended
marked-Leaves w nss why h (inr (inl clean)) = inr (inl clean)
marked-Leaves w nss why h (inr (inr (node, only, unfinished))) =
    inr (inr (node, h, refl, only, unfinished))

stopped_refresh :
    (w : World) (nss : List Bytes) (why : Abort) (h : History)
    → Stays w nss (err (record { why = why; history = h }))
    → Leaves w nss (then_refresh (err (record { why = why; history = h })))
unfolding then_refresh
stopped_refresh w nss failed h l = marked-Leaves w nss failed h l
stopped_refresh w nss skipped h l = marked-Leaves w nss skipped h l
stopped_refresh w nss fatal h l = inl refl

then_refresh-Leaves :
    (w : World) (nss : List Bytes) (m : Run History) → Stays w nss m → Leaves w nss (then_refresh m)
unfolding then_refresh
then_refresh-Leaves w nss (ok h) l = l
then_refresh-Leaves w nss (err s) l = stopped_refresh w nss s.why s.history l

Leaves-eq :
    (w : World) (nss : List Bytes) (m r : Run History) → m ≡ r → Leaves w nss r → Leaves w nss m
Leaves-eq w nss m r e l = subst (λ (t : Run History). Leaves w nss t) (sym e) l

all_deployments-err :
    (w : World) (nss : List Bytes) (h : History) (m : DeploymentMap) (s : Stopped)
    → all_deployments w nss h m ≡ err s
    → s.history ≡ h
unfolding all_deployments get_deployments
all_deployments-err w [] h m s e = cc
all_deployments-err w (ns ∷ nss) h m s e = elim (Option-cases (w.deployments h ns)) [
  | inl e' ↦ ground arith
  | inr (ds, e') ↦ elim (List-cases (not_ready ds)) [
    | inl none_left ↦ all_deployments-err w nss h (add_all ds m) s (ground arith)
    | inr (name, names, left) ↦ ground arith
  ]
]

-- However the drain test ends, whatever the cluster answers: if no node was cordoned before it, then
-- none is cordoned afterwards, unless the drain itself ended the process, or else one node is, and
-- when the test failed the deployments of a namespace under test were late or could not be read, or
-- the uncordon of that node had just failed.
pub test_pods_recreation-Leaves :
    (w : World) (nss : List Bytes) (nodes : Nodes) (h : History)
    → cordoned w h ≡ []
    → Leaves w nss (test_pods_recreation w nss nodes h)
unfolding test_pods_recreation
test_pods_recreation-Leaves w nss nodes h clean =
    let whole = test_pods_recreation w nss nodes h in
    let recreated = then_refresh (recreate_on w nss nodes h) in
    elim (Result-cases (all_deployments w nss h [])) [
      | inl (s, e) ↦
          let same = all_deployments-err w nss h [] s e in
          Leaves-eq w nss whole (err s) (ground arith)
            (inr (inl (ap (λ t. cordoned w t) same ∙ clean)))
      | inr (ds, e) ↦ elim (List-cases ds) [
        | inl e' ↦
            Leaves-eq w nss whole (err (record { why = skipped; history = h })) (ground arith)
              (inr (inl clean))
        | inr (d, others, e') ↦ Leaves-eq w nss whole recreated (ground arith) (
            then_refresh-Leaves w nss (recreate_on w nss nodes h)
              (recreate_on-Stays w nss nodes h clean))
      ]
    ]

-- A drained node stays cordoned when the wait for the deployments of the first namespace is over
-- too late: the test fails there, before the check that uncordons the node.
pub recreate_pods_late :
    (w : World) (ns node : Bytes) (nss : List Bytes) (h : History)
    → w.drain_starts (reset_sessions ∷ h) ≡ true
    → w.passes (drain node ∷ reset_sessions ∷ h) ≡ true
    → w.become_ready (drain node ∷ reset_sessions ∷ h) ns ≡ false
    → (s : Stopped) × (recreate_pods w (ns ∷ nss) node h ≡ err s)
      × (s.why ≡ failed)
      × (cordoned w s.history ≡ node ∷ cordoned w h)
unfolding recreate_pods drain_node check_replicas wait_for_all_deployments_ready
recreate_pods_late w ns node nss h starts drained late =
    (record { why = failed; history = drain node ∷ reset_sessions ∷ h }, ground arith, refl, refl)
