-- ===== src/Tnf.antt =====
-- pkg/tnf/test.go: a test as a chain of handlers, and what is done with its result.
pub mod Chain
pub mod Verdicts
use test_network_function.Prelude.{
  ℕ, Bytes, List, [], ◌∷◌, Bool, true, false, ◌&&◌, Option, none, some, Result, ok, err, ◌>>=◌,
  Panic, if◌then◌else◌,
}
use test_network_function.Prelude.Int.{ℤ, pos, eq_ℤ}
use test_network_function.Reel.{
  Step, Handler, Reel, Session, Ended, running, returned, panicked, run,
}
use test_network_function.Reel

abbrev pub error : ℤ
error = pos 0

abbrev pub success : ℤ
success = pos 1

abbrev pub failure : ℤ
failure = pos 2

-- `ExitCodeMap`; a missing key reads as 0.
unfoldable pub exit_code : ℤ → ℕ
exit_code result =
    if eq_ℤ result success
    then 0
    else if eq_ℤ result failure
    then 1
    else if eq_ℤ result error
    then 2
    else 0

module _ {S : Type 0} where
  -- `dispatch`: the first step that a handler of the chain gives; the later handlers are not asked.
  unfoldable pub dispatch :
      (S → Result Panic (S × Option Step)) → List S → Result Panic (List S × Option Step)
  dispatch fp [] = ok ([], none)
  dispatch fp (handler ∷ chain) = do
    called ← fp handler
    elim called.1 [
      | some step ↦ ok (called.0 ∷ chain, some step)
      | none ↦ do rest ← dispatch fp chain; ok (called.0 ∷ rest.0, rest.1)
    ]

  unfoldable pub eof_all : (S → S) → List S → List S
  eof_all fp [] = []
  eof_all fp (handler ∷ chain) = fp handler ∷ eof_all fp chain

  -- A `Test` is a handler itself, over the states of its chain.
  unfoldable pub test_handler : Handler S → Handler (List S)
  unfolding dispatch eof_all
  test_handler hd = record {
    reel_first = dispatch hd.reel_first;
    reel_match = λ pattern before m. dispatch (hd.reel_match pattern before m);
    reel_timeout = dispatch hd.reel_timeout;
    reel_eof = eof_all hd.reel_eof;
  }

-- What a run of a test tells its caller: the tester's result beside the runner's error.
pub data Outcome : Type 0 where
  outcome : ℤ → Option Reel.Error → Outcome
  panic : Panic → Outcome
  unfinished : Outcome

module _ {S : Type 0} (hd : Handler S) (tester_result : List S → ℤ) where
  -- `Run`: the result is read from the tester, whatever the error.
  unfoldable pub run_test : Reel → Session → ℕ → List S → Outcome
  unfolding test_handler
  run_test r session fuel chain = elim (run (test_handler hd) r session fuel chain) [
    | running ↦ unfinished
    | returned chain' e ↦ outcome (tester_result chain') e
    | panicked p ↦ panic p
  ]

-- A callback that may be nil, as the event of its call.
pub data Called : Type 0 where
  success_called : Called
  failure_called : Called
  error_called : Option Reel.Error → Called

pub record Callbacks : Type 0 where
  pub success_cb : Bool
  pub failure_cb : Bool
  pub error_cb : Bool

-- `RunWithCallbacks`: the calls made for a result, in order.
unfoldable pub run_with_callbacks : Callbacks → ℤ → Option Reel.Error → List Called
run_with_callbacks cb test_result e =
    if eq_ℤ test_result success
    then (if cb.success_cb then success_called ∷ [] else [])
    else if eq_ℤ test_result failure
    then (if cb.failure_cb then failure_called ∷ [] else [])
    else if eq_ℤ test_result error
    then (if cb.error_cb then error_called e ∷ [] else [])
    else []

-- What `RunAndValidateWithFailureCallback` does: whether the callback is called, and whether both
-- expectations of the spec hold.
pub record Validation : Type 0 where
  pub failure_cb_called : Bool
  pub passed : Bool

unfoldable pub run_and_validate_with_failure_callback : Bool → ℤ → Option Reel.Error → Validation
run_and_validate_with_failure_callback has_cb test_result e = record {
  failure_cb_called = eq_ℤ test_result failure && has_cb;
  passed = elim e [ none ↦ eq_ℤ test_result success | some x ↦ false ];
}

-- `RunAndValidate`
unfoldable pub run_and_validate : ℤ → Option Reel.Error → Validation
unfolding run_and_validate_with_failure_callback
run_and_validate = run_and_validate_with_failure_callback false
