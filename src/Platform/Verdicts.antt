-- ===== src/Platform/Verdicts.antt =====
-- test-network-function/platform/suite.go: `testHugepages`, whose machine configs are kept between
-- the nodes, against the verdict of each node by itself.
use test_network_function.Prelude.{
  ◌≡◌, ◌↔◌, ◌⊎◌, inl, inr, refl, sym, subst, Bytes, bytes_eq, str_eq, str_eq_iff, Map, lookup,
  insert, lookup-insert, List, [], ◌∷◌, Bool, true, ◌&&◌, Bool-cases, none, some, Option-cases,
  Result, ok, err, ◌>>=◌, Result-cases, >>=-eq-ok, if◌then◌else◌, arith,
}
use test_network_function.Strings.{trim}
use test_network_function.Generic.{Regexp}
use test_network_function.Config.{is_worker}
use test_network_function.Config.Nodes.{NodeConfig, Nodes}
use test_network_function.Platform.Cluster.{
  Answers, MachineConfig, Failure, no_mc_name, no_machine_config, get_node_numa_huge_pages,
  get_node_machine_config, get_mc_systemd_units_hugepages_config, compare_hugepages, bad_nodes,
  is_nil, test_hugepages,
}

-- The machine config of a node, read anew.
abbrev pub machine_config_of : Answers → NodeConfig → Result Failure MachineConfig
machine_config_of answers node = elim (answers.mc_name node.name) [
  | none ↦ err no_mc_name
  | some quoted ↦ elim (answers.machine_config (trim b'"' quoted)) [
    | none ↦ err no_machine_config
    | some mc ↦ ok mc
  ]
]

-- The verdict of a node by itself.
abbrev pub node_verdict : Regexp → Answers → NodeConfig → Result Failure Bool
node_verdict re answers node = do
  pages ← get_node_numa_huge_pages re answers node
  mc ← machine_config_of answers node
  units ← get_mc_systemd_units_hugepages_config re mc
  compare_hugepages pages units mc

-- Each worker with a debug pod passes.
abbrev pub AllPass : Regexp → Answers → Nodes → Type 0
AllPass re answers [] = Unit
AllPass re answers ((_, node) ∷ nodes) =
    ((is_worker node.node && node.debug) ≡ true → node_verdict re answers node ≡ ok true)
    × AllPass re answers nodes

-- Each entry is what the cluster answers.
abbrev Caches : Answers → Map Bytes MachineConfig → Type 0
Caches answers machineconfigs =
    (name : Bytes) (mc : MachineConfig)
    → lookup name machineconfigs ≡ some mc
    → answers.machine_config name ≡ some mc

insert-Caches :
    (answers : Answers) (m : Map Bytes MachineConfig) (name : Bytes) (mc : MachineConfig)
    → Caches answers m
    → answers.machine_config name ≡ some mc
    → Caches answers (insert name mc m)
insert-Caches answers m name mc caches read other found there =
    elim (Bool-cases (str_eq name other)) [
      | inl e ↦
          subst (λ n. answers.machine_config n ≡ some found) ((str_eq_iff name other).0 e)
            (ground (arith, lookup-insert name other mc m))
      | inr e ↦ caches other found (ground (arith, lookup-insert name other mc m))
    ]

get_node_machine_config-Caches :
    (answers : Answers) (node : NodeConfig) (m : Map Bytes MachineConfig)
    → Caches answers m
    → ((e : Failure) × (machine_config_of answers node ≡ err e)
        × (get_node_machine_config answers node.name m ≡ err e))
      ⊎ ((mc : MachineConfig) × (m' : Map Bytes MachineConfig) × (machine_config_of answers node
            ≡ ok mc)
          × (get_node_machine_config answers node.name m ≡ ok (mc, m'))
          × Caches answers m')
unfolding get_node_machine_config
get_node_machine_config-Caches answers node m caches =
    elim (Option-cases (answers.mc_name node.name)) [
      | inl unnamed ↦ inl (
        no_mc_name,
        rw (machine_config_of, unnamed) refl,
        rw (get_node_machine_config, unnamed) refl,
      )
      | inr (quoted, named) ↦
          let name = trim b'"' quoted in
          elim (Option-cases (lookup name m)) [
            | inr (mc, kept) ↦ inr (
              mc,
              m,
              rw (machine_config_of, named, caches name mc kept) refl,
              rw (get_node_machine_config, named, kept) refl,
              caches,
            )
            | inl new ↦ elim (Option-cases (answers.machine_config name)) [
              | inl missing ↦ inl (
                no_machine_config,
                rw (machine_config_of, named, missing) refl,
                rw (get_node_machine_config, named, new, missing) refl,
              )
              | inr (mc, read) ↦ inr (
                mc,
                insert name mc m,
                rw (machine_config_of, named, read) refl,
                rw (get_node_machine_config, named, new, read) refl,
                insert-Caches answers m name mc caches read,
              )
            ]
          ]
    ]

-- The bad nodes by their own verdicts, or the first failure.
abbrev bad_alone : Regexp → Answers → Nodes → Result Failure (List Bytes)
bad_alone re answers [] = ok []
bad_alone re answers ((_, node) ∷ nodes) =
    if is_worker node.node && node.debug
    then (do
      pass ← node_verdict re answers node
      rest ← bad_alone re answers nodes
      ok (if pass then rest else node.name ∷ rest))
    else bad_alone re answers nodes

>>=-assoc :
    {E A B C : Type 0} (call : Result E A) (f : A → Result E B) (g : B → Result E C)
    → ((call >>= f) >>= g) ≡ (call >>= (λ x. f x >>= g))
>>=-assoc (err e) f g = refl
>>=-assoc (ok x) f g = refl

>>=-ok : {E A : Type 0} (call : Result E A) → (call >>= ok) ≡ call
>>=-ok (err e) = refl
>>=-ok (ok x) = refl

bad_nodes-Caches :
    (re : Regexp) (answers : Answers) (nodes : Nodes) (m : Map Bytes MachineConfig)
    → Caches answers m
    → bad_nodes re answers nodes m ≡ bad_alone re answers nodes
unfolding bad_nodes
bad_nodes-Caches re answers [] m caches = refl
bad_nodes-Caches re answers ((k, node) ∷ nodes) m caches =
    elim (Bool-cases (is_worker node.node && node.debug)) [
      | inr off ↦ rw (bad_nodes, bad_alone, off) (bad_nodes-Caches re answers nodes m caches)
      | inl on ↦ elim (Result-cases (get_node_numa_huge_pages re answers node)) [
        | inl (e, fails) ↦ rw (bad_nodes, bad_alone, on, node_verdict, fails) refl
        | inr (pages, read) ↦ elim (get_node_machine_config-Caches answers node m caches) [
          | inl (e, fails, fails') ↦
              rw (bad_nodes, bad_alone, on, node_verdict, read, fails, fails') refl
          | inr (mc, m', found, found', caches') ↦
              rw
                (
                  bad_nodes,
                  bad_alone,
                  on,
                  node_verdict,
                  read,
                  found,
                  found',
                  bad_nodes-Caches re answers nodes m' caches',
                )
                (sym (
                  >>=-assoc (get_mc_systemd_units_hugepages_config re mc)
                    (λ units. compare_hugepages pages units mc)
                    (λ pass. do
                      rest ← bad_alone re answers nodes
                      ok (if pass then rest else node.name ∷ rest))))
        ]
      ]
    ]

bad_alone_iff :
    (re : Regexp) (answers : Answers) (nodes : Nodes)
    → (bad_alone re answers nodes ≡ ok []) ↔ AllPass re answers nodes
bad_alone_iff re answers [] = (λ _. tt, λ _. refl)
bad_alone_iff re answers ((k, node) ∷ nodes) =
    let rest = bad_alone_iff re answers nodes in
    elim (Bool-cases (is_worker node.node && node.debug)) [
      | inr off ↦ rw (bad_alone, off) (λ h. ((λ on. cc), rest.0 h), λ (_, all). rest.1 all)
      | inl on ↦ elim (Result-cases (node_verdict re answers node)) [
        | inl (e, fails) ↦
            rw (bad_alone, on, fails) (λ h. cc, λ (passes, all). (let clash = passes refl in cc))
        | inr (pass, known) ↦ elim (Bool-cases pass) [
          | inl good ↦
              rw (bad_alone, on, known, good, >>=-ok (bad_alone re answers nodes))
                (λ h. (λ _. refl, rest.0 h), λ (_, all). rest.1 all)
          | inr bad ↦
              rw (bad_alone, on, known, bad)
                (
                  λ h.
                      (let (names, _, clash) =
                          >>=-eq-ok (bad_alone re answers nodes) (λ names. ok (node.name ∷ names))
                            h in
                        cc),
                  λ (passes, _). (let clash = passes refl in cc),
                )
        ]
      ]
    ]

is_nil-ok :
    {E A : Type 0} (xs : List A)
    → ◌≡◌ {A = Result E Bool} (ok (is_nil xs)) (ok true)
    → ◌≡◌ {A = Result E (List A)} (ok xs) (ok [])
unfolding is_nil
is_nil-ok [] h = refl
is_nil-ok (x ∷ xs) h = cc

nil-Caches : (answers : Answers) → Caches answers []
unfolding lookup
nil-Caches answers name mc there = cc

-- The test of the hugepages passes exactly when each worker with a debug pod passes by itself, its
-- machine config read anew.
pub test_hugepages_iff :
    (re : Regexp) (answers : Answers) (nodes : Nodes)
    → (test_hugepages re answers nodes ≡ ok true) ↔ AllPass re answers nodes
unfolding test_hugepages is_nil
test_hugepages_iff re answers nodes =
    let same = bad_nodes-Caches re answers nodes [] (nil-Caches answers) in
    let alone = bad_alone_iff re answers nodes in
    (
      λ passes.
          (let (bad, known, empty) =
              >>=-eq-ok (bad_nodes re answers nodes []) (λ bad. ok (is_nil bad)) passes in
            alone.0 (rw (← same) (rw known (is_nil-ok bad empty)))),
      λ all. rw (test_hugepages, same, alone.1 all) refl,
    )
