-- ===== src/Platform.antt =====
-- test-network-function/platform/suite.go: the hugepages configuration of nodes and of machine
-- configs, and the kernel taints of a node.
--
-- The order in which Go ranges over a map is arbitrary; the loops below take the order of the
-- association list. The text of an error is left out where the function returns nothing else.
pub mod Comparisons
pub mod KernelArguments
pub mod Taints
pub mod Totals
pub mod Boot
pub mod Settings
pub mod BootParams
pub mod Cluster
pub mod Verdicts
use test_network_function.Prelude.{
  ℕ, zero, suc, ◌+◌, ◌-◌, ◌/◌, ◌%◌, ◌^◌, Bytes, codes, str_eq, Map, bytes_eq, lookup, insert, List,
  [], ◌∷◌, ◌++◌, length, get_elem?, take, Bool, true, false, not, ◌&&◌, Option, none, some, Result,
  ok, err, ◌>>=◌, Panic, index_out_of_range, slice_bounds_out_of_range, if◌then◌else◌, ◌==◌, ltb,
}
use test_network_function.Prelude.Int.{ℤ, pos, negsuc, sub_ℕ, eq_ℤ, int_eq, ◌+ℤ◌, ◌*ℤ◌, wrap_int}
use test_network_function.Strings.{split, atoi}
use test_network_function.Handlers.{at}

pub record HugePagesConfig : Type 0 where
  pub hugepages_size : ℤ
  pub hugepages_count : ℤ

-- `numaHugePagesPerSize`
abbrev pub NumaHugePages : Type 0
NumaHugePages = Map ℤ (List HugePagesConfig)

-- The innermost loop of `testNodeHugepagesWithMcSystemd`, with its break.
unfoldable pub config_matching : HugePagesConfig → List HugePagesConfig → Bool
config_matching mc [] = false
config_matching mc (node ∷ nodes) =
    let later = config_matching mc nodes in
    if eq_ℤ node.hugepages_size mc.hugepages_size && eq_ℤ node.hugepages_count mc.hugepages_count
    then true
    else later

unfoldable pub configs_matching : List HugePagesConfig → List HugePagesConfig → Bool
unfolding config_matching
configs_matching [] nodes = true
configs_matching (mc ∷ mcs) nodes = config_matching mc nodes && configs_matching mcs nodes

-- `testNodeHugepagesWithMcSystemd`; the error is nil exactly beside true.
unfoldable pub test_node_hugepages_with_mc_systemd : NumaHugePages → NumaHugePages → Bool
unfolding configs_matching
test_node_hugepages_with_mc_systemd node [] = true
test_node_hugepages_with_mc_systemd node ((numa, mcs) ∷ rest) = elim (lookup numa node) [
  | none ↦ false
  | some nodes ↦ configs_matching mcs nodes && test_node_hugepages_with_mc_systemd node rest
]

-- The count of the first configuration of a size.
unfoldable pub count_of_size : ℤ → List HugePagesConfig → Option ℤ
count_of_size size [] = none
count_of_size size (c ∷ cs) =
    let later = count_of_size size cs in
    if eq_ℤ c.hugepages_size size then some c.hugepages_count else later

-- The loop over the numas; `none` when one of them has no hugepages of the size.
unfoldable pub total_of_size : ℤ → ℤ → NumaHugePages → Option ℤ
unfolding count_of_size wrap_int
total_of_size size total [] = some total
total_of_size size total ((numa, cs) ∷ rest) = elim (count_of_size size cs) [
  | none ↦ none
  | some count ↦ total_of_size size (wrap_int (total +ℤ count)) rest
]

-- `testNodeHugepagesWithKernelArgs`; the error is nil exactly beside true.
unfoldable pub test_node_hugepages_with_kernel_args : NumaHugePages → Map ℤ ℤ → Bool
unfolding total_of_size
test_node_hugepages_with_kernel_args node [] = true
test_node_hugepages_with_kernel_args node ((size, count) ∷ rest) =
    elim (total_of_size size (pos 0) node) [
      | none ↦ false
      | some total ↦ eq_ℤ total count && test_node_hugepages_with_kernel_args node rest
    ]

abbrev pub rhel_default_hugepagesz : ℤ
rhel_default_hugepagesz = pos 2048

abbrev pub rhel_default_hugepages : ℤ
rhel_default_hugepages = pos 0

-- The error of `getMcHugepagesFromMcKernelArguments`, and a panic.
pub data McError : Type 0 where
  count_without_size : McError
  panicked : Panic → McError

abbrev last_byte : ℕ → Bytes → ℕ
last_byte c [] = c
last_byte c (d ∷ s) = last_byte d s

-- `hugepageSizeToInt`: kilobytes from a number with a unit behind it.
unfoldable pub hugepage_size_to_int : Bytes → Result McError ℤ
unfolding wrap_int
hugepage_size_to_int [] = err (panicked slice_bounds_out_of_range)
hugepage_size_to_int (c ∷ s) =
    let num = (atoi (take (length s) (c ∷ s))).0 in
    let unit = last_byte c s in
    ok (
      if unit == b'M'
      then wrap_int (num *ℤ pos 1024)
      else if unit == b'G'
      then wrap_int (num *ℤ pos (1024 ^ 2))
      else num)

-- The variables of `getMcHugepagesFromMcKernelArguments`.
pub record McHugepages : Type 0 where
  pub hugepages_per_size : Map ℤ ℤ
  pub defhugepagesz : ℤ
  pub hugepagesz : ℤ

abbrev pub nonempty : Bytes → Bool
nonempty [] = false
nonempty (c ∷ s) = true

-- A new size, with no hugepages yet.
unfoldable pub take_size : ℤ → McHugepages → McHugepages
take_size size mc = record mc {
  hugepagesz = size;
  hugepages_per_size = insert size (pos 0) mc.hugepages_per_size;
}

unfoldable pub take_default_size : ℤ → McHugepages → McHugepages
take_default_size size mc = record mc {
  defhugepagesz = size;
  hugepages_per_size = insert size rhel_default_hugepages mc.hugepages_per_size;
  hugepagesz = size;
}

unfoldable pub take_count : ℤ → McHugepages → Result McError McHugepages
take_count count mc = elim (lookup mc.hugepagesz mc.hugepages_per_size) [
  | none ↦ err count_without_size
  | some _ ↦
      ok (record mc { hugepages_per_size = insert mc.hugepagesz count mc.hugepages_per_size })
]

-- The three tests of the loop's body. A key passes one of them at most, so they are in a chain.
unfoldable pub read_argument : Bytes → Bytes → McHugepages → Result McError McHugepages
unfolding hugepage_size_to_int take_count take_size take_default_size
read_argument key value mc =
    if str_eq key (codes "hugepages") && nonempty value
    then take_count (atoi value).0 mc
    else if str_eq key (codes "hugepagesz") && nonempty value
    then (do size ← hugepage_size_to_int value; ok (take_size size mc))
    else if str_eq key (codes "default_hugepagesz") && nonempty value
    then (do size ← hugepage_size_to_int value; ok (take_default_size size mc))
    else ok mc

-- `strings.Split(arg, "=")`, where it has two parts.
abbrev pub key_value : List Bytes → Option (Bytes × Bytes)
key_value (key ∷ value ∷ []) = some (key, value)
key_value _ = none

unfoldable pub read_arguments : List Bytes → McHugepages → Result McError McHugepages
unfolding read_argument
read_arguments [] mc = ok mc
read_arguments (arg ∷ args) mc = elim (key_value (split arg (codes "="))) [
  | none ↦ read_arguments args mc
  | some (key, value) ↦ do mc' ← read_argument key value mc; read_arguments args mc'
]

abbrev pub no_hugepages : McHugepages
no_hugepages = record {
  hugepages_per_size = [];
  defhugepagesz = rhel_default_hugepagesz;
  hugepagesz = pos 0;
}

-- The default behind the loop, for an empty map.
abbrev pub or_default : Map ℤ ℤ → Map ℤ ℤ
or_default [] = (rhel_default_hugepagesz, rhel_default_hugepages) ∷ []
or_default (e ∷ es) = e ∷ es

-- `getMcHugepagesFromMcKernelArguments`
unfoldable pub get_mc_hugepages_from_mc_kernel_arguments : List Bytes → Result McError (Map ℤ ℤ × ℤ)
unfolding read_arguments
get_mc_hugepages_from_mc_kernel_arguments args = do
  mc ← read_arguments args no_hugepages
  ok (or_default mc.hugepages_per_size, mc.defhugepagesz)

-- `getTaintedBitValues`
abbrev pub tainted_bit_values : List Bytes
tainted_bit_values =
    codes "proprietary module was loaded"
    ∷ codes "module was force loaded"
    ∷ codes "kernel running on an out of specification system"
    ∷ codes "module was force unloaded"
    ∷ codes "processor reported a Machine Check Exception (MCE)"
    ∷ codes "bad page referenced or some unexpected page flags"
    ∷ codes "taint requested by userspace application"
    ∷ codes "kernel died recently, i.e. there was an OOPS or BUG"
    ∷ codes "ACPI table overridden by user"
    ∷ codes "kernel issued warning"
    ∷ codes "staging driver was loaded"
    ∷ codes "workaround for bug in platform firmware applied"
    ∷ (codes "externally-built ("
        ++ (226 ∷ 128 ∷ 156 ∷ codes "out-of-tree")
        ++ (226 ∷ 128 ∷ 157 ∷ codes ") module was loaded"))
    ∷ codes "unsigned module was loaded"
    ∷ codes "soft lockup occurred"
    ∷ codes "kernel has been live patched"
    ∷ codes "auxiliary taint, defined for and used by distros"
    ∷ codes "kernel was built with the struct randomization plugin"
    ∷ []

-- The body of the loop of `printTainted`.
unfoldable pub taint_text : ℕ → ℕ → Result Panic Bytes
unfolding at
taint_text bitmap i =
    if (bitmap / 2 ^ i) % 2 == 1
    then (do value ← at tainted_bit_values i; ok (value ++ codes ", "))
    else ok []

-- The last `n` of the rounds, from bit `i` on.
unfoldable pub print_bits : ℕ → ℕ → ℕ → Result Panic Bytes
unfolding taint_text
print_bits zero i bitmap = ok []
print_bits (suc n) i bitmap = do
  here ← taint_text bitmap i
  rest ← print_bits n (i + 1) bitmap
  ok (here ++ rest)

unfoldable pub print_tainted : ℕ → Result Panic Bytes
unfolding print_bits
print_tainted bitmap = print_bits 32 0 bitmap
