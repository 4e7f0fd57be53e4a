-- ===== src/Tnf/Verdicts.antt =====
-- What the caller of a test sees of its result.
use test_network_function.Prelude.{◌≡◌, ◌↔◌, Bool, true, Option, none, some, arith}
use test_network_function.Prelude.Int.{ℤ, eq_ℤ_iff}
use test_network_function.Reel
use test_network_function.Tnf.{success, run_and_validate_with_failure_callback}

-- A validated test passes exactly when it ran with no error and its result is SUCCESS.
pub run_and_validate_iff :
    (cb : Bool) (result : ℤ) (e : Option Reel.Error)
    → ((run_and_validate_with_failure_callback cb result e).passed ≡ true)
      ↔ ((e ≡ none) × (result ≡ success))
unfolding run_and_validate_with_failure_callback
run_and_validate_iff cb result none = ground (arith, eq_ℤ_iff result success)
run_and_validate_iff cb result (some x) = ground arith
