-- ===== src/Platform/Boot.antt =====
-- test-network-function/platform/suite.go, pkg/utils/utils.go: kernel arguments and sysctl settings of
-- a node against its machine config.
use test_network_function.Prelude.{
  ◌≡◌, inl, inr, Bytes, codes, bytes_eq, str_eq, has_prefix, Map, lookup, insert, List, [], ◌∷◌,
  drop, Bool, true, false, ◌&&◌, Bool-cases, Option, none, some, Result, ok, ◌>>=◌, Panic,
  if◌then◌else◌,
}
use test_network_function.Strings.{split}
use test_network_function.Generic.{Regexp}
use test_network_function.Handlers.{at}

-- The key and the value of an argument, from its parts between equals signs.
unfoldable pub argument_of : List Bytes → Bytes × Bytes
argument_of [] = ([], [])
argument_of (key ∷ []) = (key, [])
argument_of (key ∷ val ∷ rest) = (key, val)

-- The loop of `ArgListToMap`.
unfoldable pub add_arguments : List Bytes → Map Bytes Bytes → Map Bytes Bytes
unfolding argument_of
add_arguments [] m = m
add_arguments (arg ∷ args) m =
    let read = argument_of (split arg (codes "=")) in add_arguments args (insert read.0 read.1 m)

unfoldable pub arg_list_to_map : List Bytes → Map Bytes Bytes
unfolding add_arguments
arg_list_to_map args = add_arguments args []

unfoldable pub filter_array : List Bytes → (Bytes → Bool) → List Bytes
filter_array [] f = []
filter_array (v ∷ vs) f = let rest = filter_array vs f in if f v then v ∷ rest else rest

-- The text of the boot configuration, from `getGrubKernelArgs`; `none` when there is not exactly one
-- line of options, which fails the test.
unfoldable pub get_grub_kernel_args : Bytes → Option (Map Bytes Bytes)
unfolding filter_array arg_list_to_map
get_grub_kernel_args boot_config =
    elim (filter_array (split boot_config (codes "\n")) (has_prefix (codes "options"))) [
      | [] ↦ none
      | line ∷ others ↦ elim others [
        | [] ↦ some (arg_list_to_map (drop 1 (split line (codes " "))))
        | _ ∷ _ ↦ none
      ]
    ]

abbrev pub sysctl_regex : Bytes
sysctl_regex = codes "( \\S+)(\\s*)=(\\s*)(\\S+)"

-- The body of the loop of `parseSysctlSystemOutput`.
unfoldable pub add_setting : Regexp → Bytes → Map Bytes Bytes → Result Panic (Map Bytes Bytes)
unfolding at
add_setting re line m =
    if str_eq line []
    then ok m
    else if has_prefix (codes "*") line
    then ok m
    else elim (re.find_string_submatch sysctl_regex line) [
      | [] ↦ ok m
      | whole ∷ groups ↦ do
        key ← at (whole ∷ groups) 1
        val ← at (whole ∷ groups) 4
        ok (insert key val m)
    ]

unfoldable pub add_settings : Regexp → List Bytes → Map Bytes Bytes → Result Panic (Map Bytes Bytes)
unfolding add_setting
add_settings re [] m = ok m
add_settings re (line ∷ lines) m = do m' ← add_setting re line m; add_settings re lines m'

unfoldable pub parse_sysctl_system_output : Regexp → Bytes → Result Panic (Map Bytes Bytes)
unfolding add_settings
parse_sysctl_system_output re out = add_settings re (split out (codes "\n")) []

-- The values that both maps have agree.
unfoldable pub values_agree : Map Bytes Bytes → Map Bytes Bytes → Bool
values_agree [] others = true
values_agree ((key, val) ∷ m) others = elim (lookup key others) [
  | none ↦ values_agree m others
  | some other ↦ str_eq other val && values_agree m others
]

-- The loop of `testBootParamsHelper`: the arguments of the machine config against the current ones
-- and those of the boot loader.
unfoldable pub boot_params_agree : Map Bytes Bytes → Map Bytes Bytes → Map Bytes Bytes → Bool
boot_params_agree [] current grub = true
boot_params_agree ((key, val) ∷ m) current grub =
    elim (lookup key current) [ none ↦ true | some v ↦ str_eq v val ]
    && elim (lookup key grub) [ none ↦ true | some v ↦ str_eq v val ]
    && boot_params_agree m current grub

-- `testBootParamsHelper` at the kernel arguments of the machine config, the command line of the
-- current kernel and the text of the boot configuration: whether the test passes.
unfoldable pub test_boot_params_helper : List Bytes → Bytes → Bytes → Bool
unfolding arg_list_to_map get_grub_kernel_args boot_params_agree
test_boot_params_helper mc_args cmdline boot_config =
    let current = arg_list_to_map (split cmdline (codes " ")) in
    elim (get_grub_kernel_args boot_config) [
      | none ↦ false
      | some grub ↦ boot_params_agree (arg_list_to_map mc_args) current grub
    ]

-- The loop of `testSysctlConfigsHelper`.
unfoldable pub sysctl_configs_agree : Regexp → Bytes → Map Bytes Bytes → Result Panic Bool
unfolding parse_sysctl_system_output values_agree
sysctl_configs_agree re out mc = do
  settings ← parse_sysctl_system_output re out
  ok (values_agree settings mc)

-- Every key begins with a space.
abbrev pub AllSpaced : Map Bytes Bytes → Type 0
AllSpaced [] = Unit
AllSpaced ((key, val) ∷ m) = ((rest : Bytes) × (key ≡ b' ' ∷ rest)) × AllSpaced m

pub insert-AllSpaced :
    (key val : Bytes) (m : Map Bytes Bytes)
    → (rest : Bytes) × (key ≡ b' ' ∷ rest)
    → AllSpaced m
    → AllSpaced (insert key val m)
unfolding insert
insert-AllSpaced key val [] spaced all = (spaced, tt)
insert-AllSpaced key val ((k, v) ∷ m) spaced (here, all) = elim (Bool-cases (str_eq k key)) [
  | inl e ↦ rw e (spaced, all)
  | inr e ↦ rw e (here, insert-AllSpaced key val m spaced all)
]
