-- ===== src/Platform/Cluster.antt =====
-- test-network-function/platform/suite.go: `testHugepages` with all that it calls.
--
-- What the commands answer for a node and for a machine config are arguments, as is the decoding of
-- JSON. `ginkgo.Fail` ends the test, so it is an error here.
use test_network_function.Prelude.{
  Bytes, codes, bytes_eq, Map, lookup, insert, List, [], ◌∷◌, ◌++◌, Bool, true, false, ◌&&◌, Option,
  none, some, Result, ok, err, ◌>>=◌, if◌then◌else◌,
}
use test_network_function.Prelude.Int.{ℤ, int_eq}
use test_network_function.Strings.{split, trim, contains, atoi}
use test_network_function.Generic.{Regexp}
use test_network_function.Config.{is_worker}
use test_network_function.Config.Nodes.{NodeConfig, Nodes}
use test_network_function.Platform.{
  HugePagesConfig, NumaHugePages, McError, get_mc_hugepages_from_mc_kernel_arguments,
  test_node_hugepages_with_kernel_args, test_node_hugepages_with_mc_systemd,
}

-- `systemdHugePagesUnit`
pub record SystemdHugePagesUnit : Type 0 where
  pub contents : Bytes
  pub name : Bytes

pub record MachineConfig : Type 0 where
  pub kernel_arguments : List Bytes
  pub units : List SystemdHugePagesUnit

-- What the cluster answers: the output of the command on a node, the name of its machine config,
-- and the decoded machine config of a name; `none` for a failure.
pub record Answers : Type 0 where
  pub numa_output : NodeConfig → Option Bytes
  pub mc_name : Bytes → Option Bytes
  pub machine_config : Bytes → Option MachineConfig

-- The calls of `ginkgo.Fail`, and the failed expectation of the handler for the name.
pub data Failure : Type 0 where
  no_numa_output : Failure
  bad_numa_output : Failure
  no_mc_name : Failure
  no_machine_config : Failure
  bad_unit : Failure
  bad_kernel_arguments : McError → Failure

unfoldable pub add_config : ℤ → HugePagesConfig → NumaHugePages → NumaHugePages
add_config numa cfg m = elim (lookup numa m) [
  | none ↦ insert numa (cfg ∷ []) m
  | some cfgs ↦ insert numa (cfgs ++ (cfg ∷ [])) m
]

abbrev pub numa_regex : Bytes
numa_regex = codes "node(\\d+).*hugepages-(\\d+)kB.* count:(\\d+)"

-- The body of the loop of `getNodeNumaHugePages`.
unfoldable pub read_numa : List Bytes → NumaHugePages → Result Failure NumaHugePages
unfolding add_config
read_numa (whole ∷ numa ∷ size ∷ count ∷ []) m = ok (
    add_config (atoi numa).0
      record { hugepages_size = (atoi size).0; hugepages_count = (atoi count).0 } m)
read_numa _ m = err bad_numa_output

unfoldable pub read_numas : Regexp → List Bytes → NumaHugePages → Result Failure NumaHugePages
unfolding read_numa
read_numas re [] m = ok m
read_numas re (line ∷ lines) m = do
  m' ← read_numa (re.find_string_submatch numa_regex line) m
  read_numas re lines m'

unfoldable pub get_node_numa_huge_pages :
    Regexp → Answers → NodeConfig → Result Failure NumaHugePages
unfolding read_numas
get_node_numa_huge_pages re answers node = elim (answers.numa_output node) [
  | none ↦ err no_numa_output
  | some out ↦ read_numas re (split out (codes "\n")) []
]

abbrev pub unit_regex : Bytes
unit_regex = codes "(?ms)HUGEPAGES_COUNT=(\\d+).*HUGEPAGES_SIZE=(\\d+).*NUMA_NODE=(\\d+)"

unfoldable pub read_unit : List Bytes → NumaHugePages → Result Failure NumaHugePages
unfolding add_config
read_unit (whole ∷ count ∷ size ∷ numa ∷ rest) m = ok (
    add_config (atoi numa).0
      record { hugepages_size = (atoi size).0; hugepages_count = (atoi count).0 } m)
read_unit _ m = err bad_unit

-- The loop of `getMcSystemdUnitsHugepagesConfig`.
unfoldable pub read_units :
    Regexp → List SystemdHugePagesUnit → NumaHugePages → Result Failure NumaHugePages
unfolding read_unit
read_units re [] m = ok m
read_units re (unit ∷ units) m =
    if contains (codes "hugepages-allocation") (trim b'"' unit.name)
    then (do
      m' ← read_unit (re.find_string_submatch unit_regex (trim b'"' unit.contents)) m
      read_units re units m')
    else read_units re units m

unfoldable pub get_mc_systemd_units_hugepages_config :
    Regexp → MachineConfig → Result Failure NumaHugePages
unfolding read_units
get_mc_systemd_units_hugepages_config re mc = read_units re mc.units []

unfoldable pub fail_arguments : {A : Type 0} → Result McError A → Result Failure A
fail_arguments (ok a) = ok a
fail_arguments (err e) = err (bad_kernel_arguments e)

-- The comparison of a node with its machine config, from the body of the loop of `testHugepages`.
unfoldable pub compare_hugepages :
    NumaHugePages → NumaHugePages → MachineConfig → Result Failure Bool
unfolding fail_arguments
compare_hugepages pages [] mc = do
  parsed ← fail_arguments (get_mc_hugepages_from_mc_kernel_arguments mc.kernel_arguments)
  ok (test_node_hugepages_with_kernel_args pages parsed.0)
compare_hugepages pages (numa ∷ numas) mc =
    ok (test_node_hugepages_with_mc_systemd pages (numa ∷ numas))

-- A machine config is read once; the map keeps it.
unfoldable pub get_node_machine_config :
    Answers
    → Bytes
    → Map Bytes MachineConfig
    → Result Failure (MachineConfig × Map Bytes MachineConfig)
get_node_machine_config answers node_name machineconfigs = elim (answers.mc_name node_name) [
  | none ↦ err no_mc_name
  | some quoted ↦
      let name = trim b'"' quoted in
      elim (lookup name machineconfigs) [
        | some mc ↦ ok (mc, machineconfigs)
        | none ↦ elim (answers.machine_config name) [
          | none ↦ err no_machine_config
          | some mc ↦ ok (mc, insert name mc machineconfigs)
        ]
      ]
]

-- The loop of `testHugepages`, which collects the bad nodes.
unfoldable pub bad_nodes :
    Regexp → Answers → Nodes → Map Bytes MachineConfig → Result Failure (List Bytes)
unfolding get_node_machine_config compare_hugepages get_node_numa_huge_pages
    get_mc_systemd_units_hugepages_config
bad_nodes re answers [] machineconfigs = ok []
bad_nodes re answers ((_, node) ∷ nodes) machineconfigs =
    if is_worker node.node && node.debug
    then (do
      pages ← get_node_numa_huge_pages re answers node
      found ← get_node_machine_config answers node.name machineconfigs
      units ← get_mc_systemd_units_hugepages_config re found.0
      pass ← compare_hugepages pages units found.0
      rest ← bad_nodes re answers nodes found.1
      ok (if pass then rest else node.name ∷ rest))
    else bad_nodes re answers nodes machineconfigs

-- `gomega.Expect(badNodes).To(gomega.BeNil())`
unfoldable pub is_nil : {A : Type 0} → List A → Bool
is_nil [] = true
is_nil (x ∷ xs) = false

unfoldable pub test_hugepages : Regexp → Answers → Nodes → Result Failure Bool
unfolding bad_nodes
test_hugepages re answers nodes = do bad ← bad_nodes re answers nodes []; ok (is_nil bad)
