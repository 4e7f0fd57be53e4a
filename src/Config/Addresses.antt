-- ===== src/Config/Addresses.antt =====
-- The addresses of the containers, and the containers that are excluded from connectivity tests.
use test_network_function.Prelude.{
  ◌≡◌, ◌⊎◌, inl, inr, refl, sym, subst, Bytes, codes, lookup, insert, lookup-insert, List, [], ◌∷◌,
  Bool-cases, some, Option-cases, ok, >>=-eq-ok, arith,
}
use test_network_function.Config.{
  ContainerIdentifier, ContainerConfig, same_container, same_container_iff, container_eq,
}
use test_network_function.Config.Nodes.{Oc, Container, Containers}
use test_network_function.Config.Environment.{
  Discovery, Excluded, Cluster, get_oc_session, get_container_default_network_ip_address,
  address_of, or_kept, create_containers,
}

-- The container is in the set.
abbrev pub IsExcluded : ContainerIdentifier → Excluded → Type 0
IsExcluded c excluded = (v : Bytes) × (lookup c excluded ≡ some v)

-- The container is excluded, or has the address that a test over its own session found.
abbrev pub IsAddressed : Discovery → Excluded → Container → Type 0
IsAddressed d excluded c =
    IsExcluded c.container_identifier excluded
    ⊎ ((oc : Oc) × (c.oc ≡ some oc)
        × (get_container_default_network_ip_address d oc
              c.container_configuration.default_network_device
            ≡ some c.default_network_ip_address))

-- Each container is listed under its identifier and is addressed.
abbrev pub AllAddressed : Discovery → Containers → Excluded → Type 0
AllAddressed d created excluded =
    (j : ContainerIdentifier) (c : Container)
    → lookup j created ≡ some c
    → (c.container_identifier ≡ j) × IsAddressed d excluded c

-- The second set has all of the first.
abbrev pub Grows : Excluded → Excluded → Type 0
Grows before after = (j : ContainerIdentifier) → IsExcluded j before → IsExcluded j after

insert-Grows :
    (j : ContainerIdentifier) (v : Bytes) (excluded : Excluded)
    → Grows excluded (insert j v excluded)
insert-Grows j v excluded i (w, there) = elim (Bool-cases (same_container j i)) [
  | inl e ↦ (v, ground (arith, lookup-insert j i v excluded))
  | inr e ↦ (w, ground (arith, lookup-insert j i v excluded))
]

-- The set has grown, and the container is excluded or has the address that the test found.
abbrev Settled : Discovery → Oc → ContainerConfig → Excluded → Bytes × Excluded → Type 0
Settled d oc c before found =
    Grows before found.1
    × (IsExcluded c.identifier found.1
        ⊎ (get_container_default_network_ip_address d oc c.default_network_device ≡ some found.0))

address_of-Settled :
    (d : Discovery) (oc : Oc) (c : ContainerConfig) (excluded : Excluded)
    → Settled d oc c excluded (address_of d oc c excluded)
unfolding address_of
address_of-Settled d oc c excluded = elim (Option-cases (lookup c.identifier excluded)) [
  | inr (v, e) ↦
      let found : address_of d oc c excluded ≡ (codes "UNKNOWN", excluded) = ground arith in
      subst (λ (r : Bytes × Excluded). Settled d oc c excluded r) (sym found) (λ j h. h, inl (v, e))
  | inl e ↦
      elim (Option-cases (get_container_default_network_ip_address d oc c.default_network_device)) [
        | inl failed ↦
            let found : address_of d oc c excluded ≡ ([], insert c.identifier [] excluded) =
              ground arith in
            subst (λ (r : Bytes × Excluded). Settled d oc c excluded r) (sym found)
              (
                insert-Grows c.identifier [] excluded,
                inl (
                  [],
                  ground (
                    arith,
                    lookup-insert c.identifier c.identifier [] excluded,
                    same_container_iff c.identifier c.identifier,
                  ),
                ),
              )
        | inr (address, read) ↦
            let found : address_of d oc c excluded ≡ (address, excluded) = ground arith in
            subst (λ (r : Bytes × Excluded). Settled d oc c excluded r) (sym found)
              (λ j h. h, inr read)
      ]
]

IsAddressed-Grows :
    (d : Discovery) (before after : Excluded) (c : Container)
    → Grows before after
    → IsAddressed d before c
    → IsAddressed d after c
IsAddressed-Grows d before after c grows (inl ex) = inl (grows c.container_identifier ex)
IsAddressed-Grows d before after c grows (inr found) = inr found

insert-AllAddressed :
    (d : Discovery) (created : Containers) (before after : Excluded) (c : Container)
    → AllAddressed d created before
    → Grows before after
    → IsAddressed d after c
    → AllAddressed d (insert c.container_identifier c created) after
insert-AllAddressed d created before after c all grows new j k there =
    elim (Bool-cases (same_container c.container_identifier j)) [
      | inl e ↦
          let same : c ≡ k = ground (arith, lookup-insert c.container_identifier j c created) in
          (
            ground (arith, same_container_iff c.container_identifier j),
            subst (λ (t : Container). IsAddressed d after t) same new,
          )
      | inr e ↦
          let (listed, old) =
            all j k (ground (arith, lookup-insert c.container_identifier j c created)) in
          (listed, IsAddressed-Grows d before after k grows old)
    ]

-- Where `createContainers` returns, no container is taken off the set of exclusions, and each
-- created container stands under its own identifier and is excluded from connectivity tests or has
-- the address that a successful test over its session found.
pub create_containers-AllAddressed :
    (d : Discovery) (definitions : List ContainerConfig) (created created' : Containers)
    (excluded excluded' : Excluded) (cluster cluster' : Cluster)
    → AllAddressed d created excluded
    → create_containers d definitions created excluded cluster ≡ ok (created', excluded', cluster')
    → Grows excluded excluded' × AllAddressed d created' excluded'
unfolding create_containers
create_containers-AllAddressed d [] created created' excluded excluded' cluster cluster' all h =
    let e : created ≡ created' = ground arith in
    let e' : excluded ≡ excluded' = ground arith in
    (
      λ j there. subst (λ (t : Excluded). IsExcluded j t) e' there,
      subst (λ (t : Excluded). AllAddressed d created' t) e'
          (subst (λ (t : Containers). AllAddressed d t excluded) e all),
    )
create_containers-AllAddressed d (c ∷ cs) created created' excluded excluded' cluster cluster' all
      h =
    let ((oc, after), e, rest) =
      >>=-eq-ok (or_kept (get_oc_session d c.identifier cluster) excluded cluster) _ h in
    let found = address_of d oc c excluded in
    let new : Container = record {
      container_configuration = c;
      oc = some oc;
      default_network_ip_address = found.0;
      container_identifier = c.identifier;
    } in
    let (grows, settled) = address_of-Settled d oc c excluded in
    let addressed : IsAddressed d found.1 new = elim settled [
      | inl ex ↦ inl ex
      | inr read ↦ inr (oc, refl, read)
    ] in
    let (later, all') =
      create_containers-AllAddressed d cs (insert c.identifier new created) created' found.1
        excluded' after cluster'
        (insert-AllAddressed d created excluded found.1 new all grows addressed) rest in
    (λ j there. later j (grows j there), all')
