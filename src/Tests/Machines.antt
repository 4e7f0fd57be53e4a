-- ===== src/Tests/Machines.antt =====
-- test-network-function/platform at the configuration of a node with two numas, and
-- pkg/tnf/handlers/deploymentsnodes at two pods.
use test_network_function.Prelude.{
  Bool-cases, inl, inr, if◌then◌else◌, ◌≡◌, refl, arith, ◌≢◌, ◌↔◌, ◌⊎◌, Bytes, codes, Map, List, [],
  ◌∷◌, ℕ, ◌≤◌, ◌<◌, ok, err, index_out_of_range, true, ◌^◌,
}
use test_network_function.Prelude.Int.{ℤ, pos}
use test_network_function.Prelude.{drop, str_eq, has_prefix, lookup, insert, bytes_eq}
use test_network_function.Strings.{split, trim, trim_space, fields}
use test_network_function.Tnf.{error, success}
use test_network_function.Generic.{Regexp}
use test_network_function.Handlers.Placements.{
  DeploymentsNodes, deployments_nodes_match, extract_deployment,
}
use test_network_function.Platform.{
  HugePagesConfig, NumaHugePages, test_node_hugepages_with_kernel_args,
  test_node_hugepages_with_mc_systemd, count_without_size,
  get_mc_hugepages_from_mc_kernel_arguments, print_tainted,
}
use test_network_function.Platform.Comparisons.{IsCovered, test_node_hugepages_with_mc_systemd_iff}
use test_network_function.Platform.KernelArguments.{
  CountFirst, get_mc_hugepages_from_mc_kernel_arguments_lem,
}
use test_network_function.Platform.Totals.{IsSatisfied, test_node_hugepages_with_kernel_args_iff}
use test_network_function.Platform.Boot.{
  test_boot_params_helper, filter_array, sysctl_regex, sysctl_configs_agree,
}
use test_network_function.Platform.BootParams.{AgreesLast, test_boot_params_helper_iff}
use test_network_function.Platform.Settings.{sysctl_configs_agree-plain}
use test_network_function.Platform.Taints.{HasBit, print_tainted_panics}

abbrev pages : ℕ → ℕ → HugePagesConfig
pages size count = record { hugepages_size = pos size; hugepages_count = pos count }

abbrev node : NumaHugePages
node = (pos 0, pages 2048 4 ∷ pages 1048576 0 ∷ []) ∷ (pos 1, pages 2048 2 ∷ []) ∷ []

abbrev units : NumaHugePages
units = (pos 1, pages 2048 2 ∷ []) ∷ (pos 0, pages 2048 4 ∷ []) ∷ []

test_node_hugepages_with_mc_systemd_iff_example :
    (test_node_hugepages_with_mc_systemd node units ≡ true) ↔ IsCovered node units
test_node_hugepages_with_mc_systemd_iff_example = test_node_hugepages_with_mc_systemd_iff node units

abbrev boot : List Bytes
boot = codes "quiet" ∷ codes "hugepages=4" ∷ codes "hugepagesz=1G" ∷ []

get_mc_hugepages_from_mc_kernel_arguments_lem_example :
    (CountFirst boot × (get_mc_hugepages_from_mc_kernel_arguments boot ≡ err count_without_size))
    ⊎ ((CountFirst boot → ⊥)
        × ((per_size : Map ℤ ℤ) × (default_size : ℤ) × (get_mc_hugepages_from_mc_kernel_arguments
                boot
              ≡ ok (per_size, default_size))
            × (per_size ≢ [])))
get_mc_hugepages_from_mc_kernel_arguments_lem_example =
    get_mc_hugepages_from_mc_kernel_arguments_lem boot

print_tainted_panics_example :
    (print_tainted (2 ^ 18) ≡ err index_out_of_range)
    ↔ ((j : ℕ) × (18 ≤ j) × (j < 32) × HasBit (2 ^ 18) j)
print_tainted_panics_example = print_tainted_panics (2 ^ 18)

test_node_hugepages_with_kernel_args_iff_example :
    (test_node_hugepages_with_kernel_args node ((pos 2048, pos 6) ∷ []) ≡ true)
    ↔ IsSatisfied node ((pos 2048, pos 6) ∷ [])
test_node_hugepages_with_kernel_args_iff_example =
    test_node_hugepages_with_kernel_args_iff node ((pos 2048, pos 6) ∷ []) 6
      (
        4,
        2,
        (4, 0, refl, (0, 0, refl, refl, refl), refl),
        (2, 0, (2, 0, refl, refl, refl), refl, refl),
        refl,
      )
      (omega arith)

-- The deployment of every pod is `web`.
abbrev web_only : Regexp
web_only = record { compiles = λ e. true; find_string_submatch = λ e m. m ∷ codes "web" ∷ [] }

abbrev placements : Bytes
placements = codes "NAME NODE\nweb-1-a n1\nweb-1-b n2\n"

abbrev unplaced : DeploymentsNodes
unplaced = record { nodes = []; result = error; timeout = 10; args = [] }

abbrev placed : DeploymentsNodes
placed = record unplaced {
  nodes = (codes "n1", (codes "web", true) ∷ []) ∷ (codes "n2", (codes "web", true) ∷ []) ∷ [];
  result = success;
}

placements_run : deployments_nodes_match web_only [] [] placements unplaced ≡ ok placed
unfolding deployments_nodes_match split trim has_prefix trim_space fields str_eq extract_deployment
    lookup insert
placements_run = refl

abbrev required : List Bytes
required = codes "hugepagesz=1G" ∷ codes "quiet" ∷ []

abbrev cmdline : Bytes
cmdline = codes "ro quiet hugepagesz=1G"

abbrev boot_config : Bytes
boot_config = codes "title default\noptions root=UUID=1 hugepagesz=2M"

test_boot_params_helper_iff_example :
    (test_boot_params_helper required cmdline boot_config ≡ true) ↔ (
      (line : Bytes) × (filter_array (split boot_config (codes "\n")) (has_prefix (codes "options"))
        ≡ line ∷ [])
      × AgreesLast required (split cmdline (codes " "))
      × AgreesLast required (drop 1 (split line (codes " "))))
test_boot_params_helper_iff_example = test_boot_params_helper_iff required cmdline boot_config

abbrev swappiness : Bytes
swappiness = codes " vm.swappiness = 30"

abbrev settings_found : Regexp
settings_found = record {
  compiles = λ _. true;
  find_string_submatch = λ _ line.
      if str_eq line swappiness
      then swappiness ∷ codes " vm.swappiness" ∷ codes " " ∷ codes " " ∷ codes "30" ∷ []
      else [];
}

abbrev machine_config : Map Bytes Bytes
machine_config = (codes "vm.swappiness", codes "60") ∷ []

settings_found-groups :
    (line : Bytes)
    → (settings_found.find_string_submatch sysctl_regex line ≡ [])
      ⊎ ((whole name before after val : Bytes) × (settings_found.find_string_submatch sysctl_regex
              line
            ≡ whole ∷ (b' ' ∷ name) ∷ before ∷ after ∷ val ∷ []))
settings_found-groups line = elim (Bool-cases (str_eq line swappiness)) [
  | inl e ↦ inr (swappiness, codes "vm.swappiness", codes " ", codes " ", codes "30", rw e refl)
  | inr e ↦ inl (rw e refl)
]

sysctl_configs_agree-plain_example :
    sysctl_configs_agree settings_found swappiness machine_config ≡ ok true
unfolding lookup str_eq
sysctl_configs_agree-plain_example =
    sysctl_configs_agree-plain settings_found settings_found-groups swappiness machine_config
      (λ name. refl)
