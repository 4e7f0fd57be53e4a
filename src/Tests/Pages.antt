-- ===== src/Tests/Pages.antt =====
-- test-network-function/platform: the test of the hugepages at two workers with one machine config.
use test_network_function.Prelude.{
  ◌≡◌, ◌↔◌, Bytes, codes, str_eq, [], ◌∷◌, true, false, none, some, ok, if◌then◌else◌, bytes_eq,
}
use test_network_function.Strings.{split}
use test_network_function.Generic.{Regexp}
use test_network_function.Config.{worker_label}
use test_network_function.Config.Nodes.{NodeConfig, Nodes}
use test_network_function.Platform.Cluster.{MachineConfig, Answers, test_hugepages}
use test_network_function.Platform.Verdicts.{AllPass, test_hugepages_iff}

abbrev worker_named : Bytes → NodeConfig
worker_named name = record {
  name = name;
  node = record { name = name; labels = worker_label ∷ [] };
  oc = none;
  deployment = false;
  debug = true;
}

abbrev workers : Nodes
workers = (codes "a", worker_named (codes "a")) ∷ (codes "b", worker_named (codes "b")) ∷ []

abbrev allocation : MachineConfig
allocation = record {
  kernel_arguments = [];
  units = record { contents = codes "4 2048 0"; name = codes "hugepages-allocation" } ∷ [];
}

abbrev answers : Answers
answers = record {
  numa_output = λ _. some (codes "0 2048 4");
  mc_name = λ _. some (codes "\"workers\"");
  machine_config = λ name. if str_eq name (codes "workers") then some allocation else none;
}

-- Each expression finds the numbers of a text that are between spaces.
abbrev numbers : Regexp
numbers = record {
  compiles = λ _. true;
  find_string_submatch = λ _ text. text ∷ split text (codes " ");
}

test_hugepages_iff_example :
    (test_hugepages numbers answers workers ≡ ok true) ↔ AllPass numbers answers workers
test_hugepages_iff_example = test_hugepages_iff numbers answers workers
