-- ===== src/Platform/Comparisons.antt =====
-- The two comparisons of a node's hugepages with its machine config.
use test_network_function.Prelude.{
  ◌≡◌, ◌↔◌, ◌⊎◌, inl, inr, refl, lookup, List, [], ◌∷◌, true, some, Option-cases, arith,
}
use test_network_function.Prelude.Int.{eq_ℤ_iff, int_eq}
use test_network_function.Platform.{
  HugePagesConfig, NumaHugePages, config_matching, configs_matching,
  test_node_hugepages_with_mc_systemd,
}

-- The configuration is one of the list.
abbrev pub Among : HugePagesConfig → List HugePagesConfig → Type 0
Among c [] = ⊥
Among c (d ∷ ds) =
    ((d.hugepages_size ≡ c.hugepages_size) × (d.hugepages_count ≡ c.hugepages_count)) ⊎ Among c ds

abbrev pub AllAmong : List HugePagesConfig → List HugePagesConfig → Type 0
AllAmong [] ds = Unit
AllAmong (c ∷ cs) ds = Among c ds × AllAmong cs ds

-- Every numa of the machine config is one of the node's, which has all its configurations.
abbrev pub IsCovered : NumaHugePages → NumaHugePages → Type 0
IsCovered node [] = Unit
IsCovered node ((numa, mcs) ∷ rest) =
    ((nodes : List HugePagesConfig) × (lookup numa node ≡ some nodes) × AllAmong mcs nodes)
    × IsCovered node rest

config_matching_iff :
    (c : HugePagesConfig) (ds : List HugePagesConfig) → (config_matching c ds ≡ true) ↔ Among c ds
unfolding config_matching
config_matching_iff c [] = ground arith
config_matching_iff c (d ∷ ds) = ground (
  arith,
  config_matching_iff c ds,
  eq_ℤ_iff d.hugepages_size c.hugepages_size,
  eq_ℤ_iff d.hugepages_count c.hugepages_count,
)

configs_matching_iff :
    (cs ds : List HugePagesConfig) → (configs_matching cs ds ≡ true) ↔ AllAmong cs ds
unfolding configs_matching
configs_matching_iff [] ds = ground arith
configs_matching_iff (c ∷ cs) ds =
    ground (arith, config_matching_iff c ds, configs_matching_iff cs ds)

systemd_sound :
    (node mc : NumaHugePages)
    → test_node_hugepages_with_mc_systemd node mc ≡ true
    → IsCovered node mc
unfolding test_node_hugepages_with_mc_systemd
systemd_sound node [] h = tt
systemd_sound node ((numa, mcs) ∷ rest) h = elim (Option-cases (lookup numa node)) [
  | inl e ↦ absurd (ground arith)
  | inr (nodes, e) ↦ (
    (nodes, e, (configs_matching_iff mcs nodes).0 (ground arith)),
    systemd_sound node rest (ground arith),
  )
]

systemd_complete :
    (node mc : NumaHugePages)
    → IsCovered node mc
    → test_node_hugepages_with_mc_systemd node mc ≡ true
unfolding test_node_hugepages_with_mc_systemd
systemd_complete node [] h = refl
systemd_complete node ((numa, mcs) ∷ rest) ((nodes, e, all), more) =
    ground (arith, e, (configs_matching_iff mcs nodes).1 all, systemd_complete node rest more)

-- A node passes the comparison with the systemd units of its machine config exactly when each numa
-- of the units is one of the node's and the node has there every size of the units with the same
-- count.
pub test_node_hugepages_with_mc_systemd_iff :
    (node mc : NumaHugePages)
    → (test_node_hugepages_with_mc_systemd node mc ≡ true) ↔ IsCovered node mc
test_node_hugepages_with_mc_systemd_iff node mc = (systemd_sound node mc, systemd_complete node mc)
