-- ===== src/Tests/Chains.antt =====
-- pkg/tnf/test.go at a chain of handlers that hand over their first step.
use test_network_function.Prelude.{
  ℕ, zero, suc, ◌≢◌, codes, [], ◌∷◌, false, Option, none, some, Result, ok, Panic, arith,
}
use test_network_function.Reel.{Step, Handler, Session, timed_out}
use test_network_function.Tnf.{error, run_test, unfinished}
use test_network_function.Tnf.Chain.{run_test_ends}

abbrev echo_step : Step
echo_step = record { execute = codes "echo"; expect = codes ".*" ∷ []; timeout = 10 }

abbrev first_once : ℕ → Result Panic (ℕ × Option Step)
first_once zero = ok (9, none)
first_once (suc n) = ok (n, some echo_step)

abbrev handing_over : Handler ℕ
handing_over = record {
  reel_first = first_once;
  reel_match = λ pattern before m n. ok (suc n, none);
  reel_timeout = λ n. ok (n, none);
  reel_eof = λ n. n;
}

abbrev sleeping : Session
sleeping = record { channel_error = λ i. none; expect_batch = λ i bs t. timed_out }

run_test_ends_example :
    run_test handing_over
      (λ chain. error)
      (record { disable_terminal_prompt_emulation = false })
      sleeping
      2
      (0 ∷ 4 ∷ [])
    ≢ unfinished
run_test_ends_example =
    run_test_ends handing_over (λ chain. error)
      (record { disable_terminal_prompt_emulation = false }) sleeping
      (record {
        on_match = λ p before m h h' o e. ground arith;
        on_timeout = λ h h' o e. ground arith;
      })
      (λ i bs t e. absurd (ground arith)) 2 (0 ∷ 4 ∷ []) (omega arith)
