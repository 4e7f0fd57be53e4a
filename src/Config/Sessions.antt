-- ===== src/Config/Sessions.antt =====
-- pkg/config/config.go, pkg/tnf/interactive/oc.go: the closing of the sessions.
use test_network_function.Prelude.{
  ℕ, List, [], ◌∷◌, ◌++◌, append_assoc, append-nil, Bool-cases, Option-cases, lookup, ◌≡◌, ◌∙◌, inl,
  inr, refl, Option, none, some, if◌then◌else◌, arith,
}
use test_network_function.Config.{ContainerIdentifier, container_eq}
use test_network_function.Config.Nodes.{Oc, Container, Nodes, Containers}
use test_network_function.Config.Environment.{TestEnvironment, Cluster}

-- `Oc.Close`, which ignores a nil reference.
unfoldable pub close : Option Oc → List ℕ → List ℕ
close none closed = closed
close (some oc) closed = closed ++ oc.id ∷ []

-- The loop of `ResetOc` over the nodes.
unfoldable pub close_nodes : Nodes → List ℕ → Nodes × List ℕ
unfolding close
close_nodes [] closed = ([], closed)
close_nodes ((name, n) ∷ nodes) closed =
    let n' = if n.debug then record n { oc = none } else n in
    let rest = close_nodes nodes (if n.debug then close n.oc closed else closed) in
    ((name, n') ∷ rest.0, rest.1)

-- The loops of `ResetOc` over the containers under test and over those of the partner.
unfoldable pub close_containers : Containers → List ℕ → Containers × List ℕ
unfolding close
close_containers [] closed = ([], closed)
close_containers ((id, c) ∷ containers) closed =
    let rest = close_containers containers (close c.oc closed) in
    ((id, record c { oc = none }) ∷ rest.0, rest.1)

unfoldable pub reset_oc : TestEnvironment → Cluster → TestEnvironment × Cluster
unfolding close_nodes close_containers
reset_oc env cluster =
    let nodes = close_nodes env.nodes_under_test cluster.closed in
    let containers = close_containers env.containers_under_test nodes.1 in
    let partners = close_containers env.partner_containers containers.1 in
    (
      record env {
        nodes_under_test = nodes.0;
        containers_under_test = containers.0;
        partner_containers = partners.0;
      },
      record cluster { closed = partners.1 },
    )

abbrev pub session : Option Oc → List ℕ
session none = []
session (some oc) = oc.id ∷ []

-- The sessions that the nodes with a debug pod refer to, and those of the containers.
abbrev pub node_sessions : Nodes → List ℕ
node_sessions [] = []
node_sessions ((name, n) ∷ nodes) = (if n.debug then session n.oc else []) ++ node_sessions nodes

abbrev pub container_sessions : Containers → List ℕ
container_sessions [] = []
container_sessions ((id, c) ∷ containers) = session c.oc ++ container_sessions containers

-- All the sessions that the environment may close.
abbrev pub sessions : TestEnvironment → List ℕ
sessions env =
    node_sessions env.nodes_under_test
    ++ (container_sessions env.containers_under_test ++ container_sessions env.partner_containers)

-- `env.TestOrchestrator`: a pointer to the container of the partner, not a copy of it.
unfoldable pub orchestrator : TestEnvironment → Option Container
orchestrator env = elim env.test_orchestrator [
  | none ↦ none
  | some id ↦ lookup id env.partner_containers
]

-- The session of a container, where there is one.
abbrev pub held : Option Container → List ℕ
held none = []
held (some c) = session c.oc

close-session : (oc : Option Oc) (closed : List ℕ) → close oc closed ≡ closed ++ session oc
unfolding close
close-session none closed = simp (append-nil)
close-session (some oc) closed = refl

close_nodes-closed :
    (nodes : Nodes) (closed : List ℕ) → (close_nodes nodes closed).1 ≡ closed ++ node_sessions nodes
unfolding close_nodes
close_nodes-closed [] closed = simp (append-nil)
close_nodes-closed ((name, n) ∷ nodes) closed = elim (Bool-cases n.debug) [
  | inl e ↦ ground (
    arith,
    close-session n.oc closed,
    close_nodes-closed nodes (close n.oc closed),
    append_assoc closed (session n.oc) (node_sessions nodes),
  )
  | inr e ↦ ground (arith, close_nodes-closed nodes closed)
]

close_nodes-sessions :
    (nodes : Nodes) (closed : List ℕ) → node_sessions (close_nodes nodes closed).0 ≡ []
unfolding close_nodes
close_nodes-sessions [] closed = refl
close_nodes-sessions ((name, n) ∷ nodes) closed = elim (Bool-cases n.debug) [
  | inl e ↦ ground (arith, close_nodes-sessions nodes (close n.oc closed))
  | inr e ↦ ground (arith, close_nodes-sessions nodes closed)
]

close_containers-closed :
    (containers : Containers) (closed : List ℕ)
    → (close_containers containers closed).1 ≡ closed ++ container_sessions containers
unfolding close_containers
close_containers-closed [] closed = simp (append-nil)
close_containers-closed ((id, c) ∷ containers) closed = ground (
  arith,
  close-session c.oc closed,
  close_containers-closed containers (close c.oc closed),
  append_assoc closed (session c.oc) (container_sessions containers),
)

close_containers-sessions :
    (containers : Containers) (closed : List ℕ)
    → container_sessions (close_containers containers closed).0 ≡ []
unfolding close_containers
close_containers-sessions [] closed = refl
close_containers-sessions ((id, c) ∷ containers) closed =
    close_containers-sessions containers (close c.oc closed)

reset_oc-closed :
    (env : TestEnvironment) (cluster : Cluster)
    → (reset_oc env cluster).1.closed ≡ cluster.closed ++ sessions env
unfolding reset_oc
reset_oc-closed env cluster =
    let nodes = close_nodes env.nodes_under_test cluster.closed in
    let containers = close_containers env.containers_under_test nodes.1 in
    let before = cluster.closed ++ node_sessions env.nodes_under_test in
    ground (
      arith,
      close_containers-closed env.partner_containers containers.1,
      close_containers-closed env.containers_under_test nodes.1,
      close_nodes-closed env.nodes_under_test cluster.closed,
      append_assoc before (container_sessions env.containers_under_test)
          (container_sessions env.partner_containers),
      append_assoc cluster.closed (node_sessions env.nodes_under_test) (
          container_sessions env.containers_under_test
          ++ container_sessions env.partner_containers),
    )

reset_oc-sessions :
    (env : TestEnvironment) (cluster : Cluster) → sessions (reset_oc env cluster).0 ≡ []
unfolding reset_oc
reset_oc-sessions env cluster =
    let nodes = close_nodes env.nodes_under_test cluster.closed in
    let containers = close_containers env.containers_under_test nodes.1 in
    simp (
      close_containers-sessions env.partner_containers containers.1,
      close_containers-sessions env.containers_under_test nodes.1,
      close_nodes-sessions env.nodes_under_test cluster.closed,
    )

close_containers-held :
    (id : ContainerIdentifier) (containers : Containers) (closed : List ℕ)
    → held (lookup id (close_containers containers closed).0) ≡ []
unfolding close_containers lookup
close_containers-held id [] closed = refl
close_containers-held id ((k, c) ∷ containers) closed = elim (Bool-cases (container_eq.beq k id)) [
  | inl e ↦ rw e refl
  | inr e ↦ rw e (close_containers-held id containers (close c.oc closed))
]

reset_oc-orchestrator :
    (env : TestEnvironment) (cluster : Cluster) → held (orchestrator (reset_oc env cluster).0) ≡ []
unfolding reset_oc orchestrator
reset_oc-orchestrator env cluster = elim (Option-cases env.test_orchestrator) [
  | inl unset ↦ rw (orchestrator, unset) refl
  | inr (id, set) ↦
      let nodes = close_nodes env.nodes_under_test cluster.closed in
      let containers = close_containers env.containers_under_test nodes.1 in
      rw (orchestrator, set) (close_containers-held id env.partner_containers containers.1)
]

pub reset_oc_lem :
    (env : TestEnvironment) (cluster : Cluster)
    → ((reset_oc env cluster).1.closed ≡ cluster.closed ++ sessions env)
      × (sessions (reset_oc env cluster).0 ≡ [])
      × (held (orchestrator (reset_oc env cluster).0) ≡ [])
      × ((reset_oc env cluster).0.debug_containers ≡ env.debug_containers)
      × ((reset_oc (reset_oc env cluster).0 (reset_oc env cluster).1).1.closed
          ≡ (reset_oc env cluster).1.closed)
unfolding reset_oc
reset_oc_lem env cluster = (
  reset_oc-closed env cluster,
  reset_oc-sessions env cluster,
  reset_oc-orchestrator env cluster,
  refl,
  reset_oc-closed (reset_oc env cluster).0 (reset_oc env cluster).1
      ∙ simp (reset_oc-sessions env cluster, append-nil),
)
