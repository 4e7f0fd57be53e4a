-- ===== src/Tests/Clusters.antt =====
-- pkg/tnf/handlers at concrete output of the commands.
use test_network_function.Prelude.{
  ◌≡◌, ◌≢◌, ◌↔◌, refl, Bytes, codes, str_eq, [], ◌∷◌, ◌++◌, drop, none, ok, arith, false,
  has_prefix, true, if◌then◌else◌,
}
use test_network_function.Prelude.Int.{pos, ◌≤ℤ◌, ◌-ℤ◌}
use test_network_function.Strings.{split, fields, trim, atoi, contains, trim_right}
use test_network_function.Reel.{
  newline, Reel, Session, matched, timed_out, running, returned, run, text_before,
}
use test_network_function.Reel.Prompt.{prompt}
use test_network_function.Tnf.{error, success}
use test_network_function.Generic.{Regexp}
use test_network_function.Handlers.{single_shot}
use test_network_function.Handlers.Runs.{run-single_shot}
use test_network_function.Handlers.Ping.{
  Ping, new_ping, ping_match, count_of, successful_output_regex, ping_match_iff,
}
use test_network_function.Handlers.Bindings.{
  RoleBinding, role_binding_match, AllInNamespace, role_binding_match_iff,
}
use test_network_function.Handlers.NodeHugepages.{NodeHugepages}
use test_network_function.Handlers.DaemonSet.{
  DaemonSet, no_status, daemon_set_first, daemon_set_match,
}
use test_network_function.Handlers.Drain.{
  new_deployments_drain, deployments_drain_handler, drain_never_ends,
}

abbrev emulated : Reel
emulated = record { disable_terminal_prompt_emulation = false }

-- Finds the statistics `3 packets transmitted, 2 packets received` in every text.
abbrev statistics : Regexp
statistics = record {
  compiles = λ e. true;
  find_string_submatch = λ e m.
      if str_eq e successful_output_regex
      then m ∷ codes "3" ∷ codes "2" ∷ codes " packets" ∷ [] ∷ []
      else [];
}

abbrev pinging : Ping
pinging = new_ping 10 (codes "host") 3

ping_match_iff_example :
    (p' : Ping) × (ping_match statistics [] [] (codes "3 packets") pinging ≡ ok p')
    × (p'.transmitted ≡ count_of (codes "3"))
    × (p'.received ≡ count_of (codes "2"))
    × (p'.errors ≡ count_of [])
    × ((p'.result ≡ success) ↔ (
        (count_of (codes "3") ≢ pos 0)
        × (count_of [] ≤ℤ pos 0)
        × (pos 1 ≤ℤ count_of (codes "2"))
        × (count_of (codes "3") -ℤ count_of (codes "2") ≤ℤ pos 1)))
ping_match_iff_example =
    ping_match_iff statistics pinging [] [] (codes "3 packets") (codes "3 packets") (codes "3")
      (codes "2") (codes " packets") [] [] (unfold str_eq in refl)

abbrev binding : RoleBinding
binding = record {
  role_bindings = [];
  pod_namespace = codes "tnf";
  result = error;
  timeout = 10;
  args = [];
}

role_binding_match_iff_example :
    (role_binding_match [] [] (codes "NAMESPACE NAME\ntnf a\nkube b\n") binding
      ≡ ok (record binding { role_bindings = []; result = success }))
    ↔ AllInNamespace
        (codes "tnf")
        (drop 1 (split (codes "NAMESPACE NAME\ntnf a\nkube b\n") (newline ∷ [])))
role_binding_match_iff_example =
    role_binding_match_iff binding [] [] (codes "NAMESPACE NAME\ntnf a\nkube b\n") refl

abbrev meminfo : Bytes
meminfo = codes "HugePages_Total: 4\nHugepagesize: 2048 kB\n"

abbrev node_pages : NodeHugepages
node_pages = record {
  hugepagesz = pos 2048;
  hugepages = pos 4;
  result = error;
  timeout = 10;
  args = [];
}

abbrev daemons : DaemonSet
daemons = record { result = error; timeout = 10; args = []; status = no_status }

abbrev silent : Session
silent = record { channel_error = λ i. none; expect_batch = λ i bs t. timed_out }

drain_never_ends_example :
    run deployments_drain_handler emulated silent 1000
      (new_deployments_drain (λ t. codes "9s") 10 (codes "node"))
    ≡ running
drain_never_ends_example =
    drain_never_ends emulated silent (new_deployments_drain (λ t. codes "9s") 10 (codes "node"))
      (λ i bs t. refl) (λ i. refl) 1000

-- Answers each batch with one line, which the first expectation matches.
abbrev answering : Session
answering = record {
  channel_error = λ i. none;
  expect_batch =
      λ i bs t. matched 0 (codes "x\n" ++ prompt (codes "0")) (codes "x\n" ++ prompt (codes "0"));
}

x_unread :
    daemon_set_match (codes "(?s).+") (text_before (codes "x") (codes "x")) (codes "x") daemons
    ≡ ok daemons
unfolding daemon_set_match split str_eq trim has_prefix fields
x_unread = refl

run-single_shot_example :
    run (single_shot daemon_set_first daemon_set_match) emulated answering 2 daemons
    ≡ returned daemons none
unfolding contains has_prefix atoi trim_right daemon_set_first
run-single_shot_example =
    run-single_shot daemon_set_first daemon_set_match emulated answering daemons daemons 0
      (codes "(?s).+") (codes "x\n") (codes "x\n") (codes "0") (codes "0") refl (λ j. refl) refl
      refl (λ e. ground arith) refl refl (omega arith, omega arith, tt)
      (omega arith, omega arith, tt) refl x_unread
