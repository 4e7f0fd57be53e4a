-- ===== src/Tests/Patterns.antt =====
-- pkg/tnf/handlers/generic with a matcher that finds the whole text, and twice what follows `x`.
use test_network_function.Prelude.{
  ◌≡◌, ◌≢◌, ◌↔◌, refl, Bytes, codes, str_eq, List, [], ◌∷◌, true, false, none, some, ok, err,
  index_out_of_range, arith,
}
use test_network_function.Prelude.Int.{ℤ, pos}
use test_network_function.Reel.{Step, Session, timed_out, running, run}
use test_network_function.Tnf.{error, success, failure}
use test_network_function.Generic.{
  Regexp, is_int_condition, comparison_condition, equals_condition, evaluate, test_match,
  found_match, Assertion, evaluate_assertion, evaluate_and, evaluate_or, evaluate_logic,
  and_boolean_logic, Assertions, result_context, Contexts, no_contexts, cons_context, Match,
  no_reason, Generic, find_result_context, evaluate_groups, match_context, reel_match,
  generic_handler,
}
use test_network_function.Generic.Conditions.{IsUncaught, evaluate_panics}
use test_network_function.Generic.Logics.{AllEvaluateTo, FirstTrue, evaluate_or_iff}
use test_network_function.Generic.Matching.{AllTrue, reel_match-step}
use test_network_function.Generic.Endings.{contexts_size, generic_handler_ends}

-- The whole text and one group, which is the text again.
abbrev whole : Regexp
whole = record { compiles = λ e. true; find_string_submatch = λ e m. m ∷ m ∷ [] }

evaluate_panics_example :
    (evaluate whole is_int_condition (codes "12") (codes "(.*)") (pos 2) ≡ err index_out_of_range)
    ↔ IsUncaught (codes "12" ∷ codes "12" ∷ []) (pos 2)
evaluate_panics_example = evaluate_panics whole is_int_condition (codes "12") (codes "(.*)") (pos 2)

abbrev is_twelve : Assertion
is_twelve = record { group_idx = pos 1; condition = some (equals_condition (codes "12")) }

abbrev at_least_ten : Assertion
at_least_ten = record {
  group_idx = pos 1;
  condition = some (comparison_condition (pos 10) (codes ">="));
}

evaluate_or_iff_example :
    ((evaluate_or whole (is_twelve ∷ at_least_ten ∷ []) (codes "13") (codes "(.*)")
        ≡ ok (false, none))
      ↔ AllEvaluateTo whole (codes "13") (codes "(.*)") (is_twelve ∷ at_least_ten ∷ []) false)
    × ((evaluate_or whole (is_twelve ∷ at_least_ten ∷ []) (codes "13") (codes "(.*)")
          ≡ ok (true, none))
        ↔ FirstTrue whole (codes "13") (codes "(.*)") (is_twelve ∷ at_least_ten ∷ []))
evaluate_or_iff_example =
    evaluate_or_iff whole (codes "13") (codes "(.*)") (is_twelve ∷ at_least_ten ∷ [])

abbrev next_step : Step
next_step = record { execute = codes "ls"; expect = codes "(.*)" ∷ []; timeout = 10 }

abbrev twelve : Assertions
twelve = record { assertions = is_twelve ∷ []; logic = and_boolean_logic }

abbrev thirteen : Assertions
thirteen = record {
  assertions = record { group_idx = pos 1; condition = some (equals_condition (codes "13")) } ∷ [];
  logic = and_boolean_logic;
}

-- The last context: two groups that cannot both be true, and no next step.
abbrev last_contexts : Contexts
last_contexts =
    cons_context (result_context (codes "(.*)") (twelve ∷ thirteen ∷ []) failure none no_contexts)
      no_contexts

abbrev first_contexts : Contexts
first_contexts =
    cons_context
      (result_context (codes "(.*)") (twelve ∷ []) failure (some next_step) last_contexts)
      no_contexts

abbrev over : Contexts → Generic
over contexts = record {
  failure_reason = no_reason;
  matches = [];
  reel_first_step = some next_step;
  result_contexts = contexts;
  reel_match_result_map = [];
  reel_timeout_step = none;
  test_result = error;
  current_reel_match_result_contexts = contexts;
}

abbrev twelve_seen : List Match
twelve_seen = record { pattern = codes "(.*)"; before = []; match = codes "12" } ∷ []

abbrev after_first : Generic
after_first = record (over first_contexts) {
  matches = twelve_seen;
  current_reel_match_result_contexts = last_contexts;
}

abbrev after_last : Generic
after_last = record (over last_contexts) { matches = twelve_seen; test_result = success }

first_runs :
    reel_match whole (codes "(.*)") [] (codes "12") (over first_contexts)
    ≡ ok (after_first, some next_step)
unfolding reel_match find_result_context str_eq match_context evaluate_groups evaluate_logic
    evaluate_and evaluate_assertion evaluate found_match test_match
first_runs = refl

last_runs :
    reel_match whole (codes "(.*)") [] (codes "12") (over last_contexts) ≡ ok (after_last, none)
unfolding reel_match find_result_context str_eq match_context evaluate_groups evaluate_logic
    evaluate_and evaluate_assertion evaluate found_match test_match
last_runs = refl

reel_match-step_example :
    (p : Bytes) × (groups : List Assertions) × (d : ℤ) × (next : Contexts) × (find_result_context
        first_contexts
        (codes "(.*)")
      ≡ some (result_context p groups d (some next_step) next))
    × AllTrue whole groups (codes "(.*)") (codes "12")
    × (after_first ≡ record (over first_contexts) {
      matches = twelve_seen;
      current_reel_match_result_contexts = next;
    })
reel_match-step_example =
    reel_match-step whole (codes "(.*)") [] (codes "12") (over first_contexts) after_first next_step
      first_runs

twelve_true :
    evaluate_logic whole and_boolean_logic (is_twelve ∷ []) (codes "12") (codes "(.*)")
    ≡ ok (true, none)
unfolding str_eq evaluate_logic evaluate_and evaluate_assertion evaluate found_match test_match
twelve_true = refl

abbrev sleeping : Session
sleeping = record { channel_error = λ i. none; expect_batch = λ i bs t. timed_out }

generic_handler_ends_example :
    run
      (generic_handler whole)
      (record { disable_terminal_prompt_emulation = false })
      sleeping
      4
      (over first_contexts)
    ≢ running
unfolding contexts_size
generic_handler_ends_example =
    generic_handler_ends whole (record { disable_terminal_prompt_emulation = false }) sleeping
      (over first_contexts) 4 (λ i bs t e. absurd (ground arith)) refl (omega arith)
