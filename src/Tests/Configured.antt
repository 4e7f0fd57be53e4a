-- ===== src/Tests/Configured.antt =====
-- pkg/tnf/handlers/deployments, hugepages, container and operator at concrete output.
use test_network_function.Prelude.{
  false, inr, Bytes, codes, bytes_eq, [], ◌∷◌, drop, none, arith, true, has_prefix,
}
use test_network_function.Strings.{split, fields, trim}
use test_network_function.Reel.{newline}
use test_network_function.Tnf.{error}
use test_network_function.Generic.{Regexp}
use test_network_function.Reel.{Reel, Session, timed_out}
use test_network_function.Handlers.Deployments.{Deployments, row_of, AllRows}
use test_network_function.Handlers.Subjects.{Subject}
use test_network_function.Handlers.Hugepages.{Hugepages, new_hugepages}

abbrev emulated : Reel
emulated = record { disable_terminal_prompt_emulation = false }

abbrev silent : Session
silent = record { channel_error = λ i. none; expect_batch = λ i bs t. timed_out }

abbrev two_rows : Bytes
two_rows = codes "NAME R\nweb 2 2 2 2 <none>\ndb 1 0 1 0 1\n"

abbrev deployed : Deployments
deployed = record {
  deployments = [];
  namespace = codes "tnf";
  result = error;
  timeout = 10;
  args = [];
}

rows_read : AllRows (drop 1 (split (trim newline two_rows) (newline ∷ [])))
unfolding split trim has_prefix fields row_of
rows_read = (inr (λ e. ground arith), (inr (λ e. ground arith), tt))

-- Finds nothing.
abbrev blind : Regexp
blind = record { compiles = λ e. true; find_string_submatch = λ e m. [] }

abbrev array_test : Bytes → Subject
array_test action = record {
  result = error;
  timeout = 10;
  args = [];
  command = [];
  name = codes "pod";
  namespace = codes "tnf";
  expect_status = codes "NET_ADMIN" ∷ codes "SYS_TIME" ∷ [];
  action = action;
  result_type = codes "array";
  facts = [];
}

abbrev capabilities : Bytes
capabilities = codes "[\"SYS_TIME\",\n \"KILL\"]"

abbrev kernel_arguments : Bytes
kernel_arguments = codes "KARGS\n[hugepagesz=1G hugepages=4 quiet]\n[hugepages=8]\n"

abbrev machine : Hugepages
machine = new_hugepages 10 (codes "worker")
