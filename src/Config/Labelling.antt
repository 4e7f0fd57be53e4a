-- ===== src/Config/Labelling.antt =====
-- Which nodes get a debug pod.
use test_network_function.Prelude.{
  Bytes, bytes_eq, str_eq, str_eq_iff, lookup, insert, lookup-insert, [], ◌∷◌, Bool, true, false,
  Bool-cases, ◌≡◌, ◌≢◌, ◌⊎◌, inl, inr, refl, none, some, ok, arith,
}
use test_network_function.Config.{Node, is_master, is_worker}
use test_network_function.Config.Nodes.{
  NodeConfig, Nodes, choose_node, set_debug, debug_names, label_nodes,
}

-- A map of nodes: each name once, and none of them empty.
abbrev pub IsNodes : Nodes → Type 0
IsNodes [] = Unit
IsNodes ((name, n) ∷ nodes) = (name ≢ []) × (lookup name nodes ≡ none) × IsNodes nodes

-- Some node has the role.
abbrev pub Present : (Node → Bool) → Nodes → Type 0
Present role nodes =
    (name : Bytes) × (n : NodeConfig) × (lookup name nodes ≡ some n) × (role n.node ≡ true)

-- Some node has the role and a debug pod.
abbrev pub Covered : (Node → Bool) → Nodes → Type 0
Covered role nodes =
    (name : Bytes) × (n : NodeConfig) × (lookup name nodes ≡ some n)
    × (role n.node ≡ true)
    × (n.debug ≡ true)

-- The name is that of a node of the role.
abbrev Chosen : (Node → Bool) → Nodes → Bytes → Type 0
Chosen role nodes name =
    (n : NodeConfig) × (name ≢ []) × (lookup name nodes ≡ some n) × (role n.node ≡ true)

lookup_later :
    (name j : Bytes) (m n : NodeConfig) (nodes : Nodes)
    → lookup name nodes ≡ none
    → lookup j nodes ≡ some n
    → lookup j ((name, m) ∷ nodes) ≡ some n
unfolding lookup
lookup_later name j m n nodes new there = ground (arith, str_eq_iff name j)

lookup_first :
    (name : Bytes) (m : NodeConfig) (nodes : Nodes) → lookup name ((name, m) ∷ nodes) ≡ some m
unfolding lookup
lookup_first name m nodes = ground (arith, str_eq_iff name name)

Covered-later :
    (role : Node → Bool) (name : Bytes) (m : NodeConfig) (nodes : Nodes)
    → lookup name nodes ≡ none
    → Covered role nodes
    → Covered role ((name, m) ∷ nodes)
Covered-later role name m nodes new (j, n, there, is_role, has_debug) =
    (j, n, lookup_later name j m n nodes new there, is_role, has_debug)

Chosen-later :
    (role : Node → Bool) (name j : Bytes) (m : NodeConfig) (nodes : Nodes)
    → lookup name nodes ≡ none
    → Chosen role nodes j
    → Chosen role ((name, m) ∷ nodes) j
Chosen-later role name j m nodes new (n, named, there, is_role) =
    (n, named, lookup_later name j m n nodes new there, is_role)

Present-tail :
    (role : Node → Bool) (name : Bytes) (m : NodeConfig) (nodes : Nodes)
    → role m.node ≡ false
    → Present role ((name, m) ∷ nodes)
    → Present role nodes
unfolding lookup
Present-tail role name m nodes other (j, n, there, is_role) = elim (Bool-cases (str_eq name j)) [
  | inl e ↦ absurd (ground arith)
  | inr e ↦ (j, n, ground arith, is_role)
]

-- What the loop returns: nothing beside a covered role, a node of the role, or what it was given.
abbrev Outcome : (Node → Bool) → Bytes → Nodes → Bytes → Type 0
Outcome role chosen nodes r =
    (Covered role nodes × (r ≡ []))
    ⊎ (Chosen role nodes r ⊎ ((r ≡ chosen) × (chosen ≡ [] → Present role nodes → ⊥)))

module _ (role : Node → Bool) (chosen name : Bytes) (m : NodeConfig) (nodes : Nodes) where
  choose_other :
      role m.node ≡ false
      → choose_node role chosen ((name, m) ∷ nodes) ≡ choose_node role chosen nodes
  unfolding choose_node
  choose_other other = ground arith

  choose_covered :
      role m.node ≡ true → m.debug ≡ true → choose_node role chosen ((name, m) ∷ nodes) ≡ []
  unfolding choose_node
  choose_covered is_role on = ground arith

  choose_first :
      role m.node ≡ true
      → m.debug ≡ false
      → chosen ≡ []
      → choose_node role chosen ((name, m) ∷ nodes) ≡ choose_node role name nodes
  unfolding choose_node
  choose_first is_role off unset = ground (arith, str_eq_iff chosen [])

  choose_later :
      role m.node ≡ true
      → m.debug ≡ false
      → chosen ≢ []
      → choose_node role chosen ((name, m) ∷ nodes) ≡ choose_node role chosen nodes
  unfolding choose_node
  choose_later is_role off already = ground (arith, str_eq_iff chosen [])

  -- An outcome for the tail is one for the whole, where a choice from nothing still fits.
  Outcome-later :
      (r : Bytes)
      → lookup name nodes ≡ none
      → (chosen ≡ [] → role m.node ≡ false)
      → Outcome role chosen nodes r
      → Outcome role chosen ((name, m) ∷ nodes) r
  Outcome-later r new other (inl (covered, e)) =
      inl (Covered-later role name m nodes new covered, e)
  Outcome-later r new other (inr (inl found)) =
      inr (inl (Chosen-later role name r m nodes new found))
  Outcome-later r new other (inr (inr (e, never))) =
      inr (inr (e, λ h p. never h (Present-tail role name m nodes (other h) p)))

  -- The first node of the role, which is not covered, where nothing was chosen before.
  Outcome-first :
      (r : Bytes)
      → lookup name nodes ≡ none
      → name ≢ []
      → role m.node ≡ true
      → Outcome role name nodes r
      → Outcome role chosen ((name, m) ∷ nodes) r
  Outcome-first r new named is_role (inl (covered, e)) =
      inl (Covered-later role name m nodes new covered, e)
  Outcome-first r new named is_role (inr (inl found)) =
      inr (inl (Chosen-later role name r m nodes new found))
  Outcome-first r new named is_role (inr (inr (e, never))) =
      inr (inl (rw e (m, named, lookup_first name m nodes, is_role)))

choose_outcome :
    (role : Node → Bool) (chosen : Bytes) (nodes : Nodes)
    → IsNodes nodes
    → Outcome role chosen nodes (choose_node role chosen nodes)
choose_outcome role chosen [] is =
    inr (inr (unfold choose_node in refl, λ e p. unfold lookup in absurd (ground arith)))
choose_outcome role chosen ((name, m) ∷ nodes) (named, new, is) = elim (Bool-cases (role m.node)) [
  | inr other ↦ rw (choose_other role chosen name m nodes other) (
      Outcome-later role chosen name m nodes (choose_node role chosen nodes) new (λ h. other)
        (choose_outcome role chosen nodes is))
  | inl is_role ↦ elim (Bool-cases m.debug) [
    | inl on ↦ inl (
      (name, m, lookup_first name m nodes, is_role, on),
      choose_covered role chosen name m nodes is_role on,
    )
    | inr off ↦ elim (Bool-cases (str_eq chosen [])) [
      | inl unset ↦
          rw (choose_first role chosen name m nodes is_role off ((str_eq_iff chosen []).0 unset)) (
            Outcome-first role chosen name m nodes (choose_node role name nodes) new named is_role
              (choose_outcome role name nodes is))
      | inr already ↦
          let there : chosen ≢ [] = λ e. ground (arith, str_eq_iff chosen []) in
          rw (choose_later role chosen name m nodes is_role off there) (
            Outcome-later role chosen name m nodes (choose_node role chosen nodes) new
              (λ e. absurd (there e)) (choose_outcome role chosen nodes is))
    ]
  ]
]

-- Every node is still there with all its fields but the debug flag, which was not cleared.
abbrev pub Marked : Nodes → Nodes → Type 0
Marked nodes nodes' =
    (j : Bytes) (n : NodeConfig)
    → lookup j nodes ≡ some n
    → (b : Bool) × (lookup j nodes' ≡ some (record n { debug = b })) × (n.debug ≡ true → b ≡ true)

Marked-refl : (nodes : Nodes) → Marked nodes nodes
Marked-refl nodes j n there = (n.debug, there, λ h. h)

Marked-trans : (a b c : Nodes) → Marked a b → Marked b c → Marked a c
Marked-trans a b c ab bc j n there =
    let (on, there', keep) = ab j n there in
    let (on', there'', keep') = bc j (record n { debug = on }) there' in
    (on', there'', λ h. keep' (keep h))

Covered-Marked :
    (role : Node → Bool) (nodes nodes' : Nodes)
    → Marked nodes nodes'
    → Covered role nodes
    → Covered role nodes'
Covered-Marked role nodes nodes' marked (j, n, there, is_role, on) =
    let (b, there', keep) = marked j n there in
    (j, record n { debug = b }, there', is_role, keep on)

insert-Marked :
    (name : Bytes) (n : NodeConfig) (nodes : Nodes)
    → lookup name nodes ≡ some n
    → Marked nodes (insert name (record n { debug = true }) nodes)
insert-Marked name n nodes there j k found = elim (Bool-cases (str_eq name j)) [
  | inl e ↦ (
    true,
    ground (arith, str_eq_iff name j, lookup-insert name j (record n { debug = true }) nodes),
    λ h. refl,
  )
  | inr e ↦
      (k.debug, ground (arith, lookup-insert name j (record n { debug = true }) nodes), λ h. h)
]

-- One role: its choice from the nodes is marked among the nodes that are marked already.
set_debug-choose :
    (role : Node → Bool) (nodes nodes' : Nodes) (name : Bytes)
    → Marked nodes nodes'
    → Outcome role [] nodes name
    → (nodes'' : Nodes) × (set_debug name nodes' ≡ ok nodes'')
      × Marked nodes' nodes''
      × (Present role nodes → Covered role nodes'')
unfolding set_debug
set_debug-choose role nodes nodes' name marked (inl (covered, e)) = (
  nodes',
  ground (arith, str_eq_iff name []),
  Marked-refl nodes',
  λ p. Covered-Marked role nodes nodes' marked covered,
)
set_debug-choose role nodes nodes' name marked (inr (inl (n, named, there, is_role))) =
    let (b, there', keep) = marked name n there in
    (
      insert name (record n { debug = true }) nodes',
      ground (arith, str_eq_iff name [], there'),
      insert-Marked name (record n { debug = b }) nodes' there',
      λ p. (
        name,
        record n { debug = true },
        ground (
          arith,
          str_eq_iff name name,
          lookup-insert name name (record n { debug = true }) nodes',
        ),
        is_role,
        refl,
      ),
    )
set_debug-choose role nodes nodes' name marked (inr (inr (e, never))) =
    (nodes', ground (arith, str_eq_iff name []), Marked-refl nodes', λ p. absurd (never refl p))

pub label_nodes_lem :
    (nodes : Nodes)
    → IsNodes nodes
    → (nodes' : Nodes) × (label_nodes nodes ≡ ok (nodes', debug_names nodes'))
      × Marked nodes nodes'
      × (Present is_master nodes → Covered is_master nodes')
      × (Present is_worker nodes → Covered is_worker nodes')
unfolding label_nodes
label_nodes_lem nodes is =
    let master = choose_node is_master [] nodes in
    let worker = choose_node is_worker [] nodes in
    let (first, e, marked, masters) =
      set_debug-choose is_master nodes nodes master (Marked-refl nodes)
        (choose_outcome is_master [] nodes is) in
    let (second, e', marked', workers) =
      set_debug-choose is_worker nodes first worker marked (choose_outcome is_worker [] nodes is) in
    (
      second,
      ground (arith, e, e'),
      Marked-trans nodes first second marked marked',
      λ p. Covered-Marked is_master first second marked' (masters p),
      workers,
    )
