-- ===== src/Generic.antt =====
-- pkg/tnf/handlers/generic: the handler that a JSON file describes, with its conditions
-- (generic/condition) and assertions (generic/assertion).
--
-- Go's package `regexp` is an argument: whether an expression compiles, and what
-- `FindStringSubmatch` finds.
pub mod Conditions
pub mod Logics
pub mod Matching
pub mod Endings
use test_network_function.Prelude.{
  ℕ, ◌<◌, Bytes, codes, str_eq, Map, bytes_eq, insert, List, [], ◌∷◌, ◌++◌, length, get_elem?, Bool,
  true, false, not, ◌||◌, Option, none, some, Result, ok, err, ◌>>=◌, Panic, index_out_of_range,
  nil_dereference, bad_regular_expression, if◌then◌else◌, ltb,
}
use test_network_function.Prelude.Int.{ℤ, pos, negsuc, eq_ℤ, ltb_ℤ, leb_ℤ}
use test_network_function.Strings.{atoi}
use test_network_function.Reel.{Step, Handler}
use test_network_function.Tnf.{error, success, failure}

pub record Regexp : Type 0 where
  pub compiles : Bytes → Bool
  -- the expression, then the text; the empty list is nil
  pub find_string_submatch : Bytes → Bytes → List Bytes

-- The implementations of `condition.Condition`.
pub data Condition : Type 0 where
  equals_condition : Bytes → Condition
  is_int_condition : Condition
  comparison_condition : ℤ → Bytes → Condition

-- The errors that `Evaluate` returns.
pub data EvalError : Type 0 where
  no_index : EvalError
  not_an_integer : Bytes → EvalError
  unknown_operator : Bytes → EvalError

-- A Boolean beside an error, as `Evaluate` returns them.
abbrev pub Evaluation : Type 0
Evaluation = Bool × Option EvalError

-- The beginning of each `Evaluate`: the length test and `matches[matchIdx]`; `none` is the error.
unfoldable pub found_match : List Bytes → ℤ → Result Panic (Option Bytes)
found_match matches (negsuc n) = err index_out_of_range
found_match matches (pos i) =
    if ltb (length matches) i
    then ok none
    else elim (get_elem? matches i) [ none ↦ err index_out_of_range | some m ↦ ok (some m) ]

-- `evaluateComparison`, with `Input` first.
unfoldable pub evaluate_comparison : ℤ → Bytes → ℤ → Evaluation
evaluate_comparison input comparison actual =
    if str_eq comparison (codes "==")
    then (eq_ℤ actual input, none)
    else if str_eq comparison (codes "<")
    then (ltb_ℤ actual input, none)
    else if str_eq comparison (codes "<=")
    then (leb_ℤ actual input, none)
    else if str_eq comparison (codes ">")
    then (ltb_ℤ input actual, none)
    else if str_eq comparison (codes ">=")
    then (leb_ℤ input actual, none)
    else if str_eq comparison (codes "!=")
    then (not (eq_ℤ actual input), none)
    else (false, some (unknown_operator comparison))

-- What each condition does with the matched group.
unfoldable pub test_match : Condition → Bytes → Evaluation
unfolding evaluate_comparison
test_match (equals_condition expected) m = (str_eq expected m, none)
test_match is_int_condition m =
    if (atoi m).1 then (true, none) else (false, some (not_an_integer m))
test_match (comparison_condition input comparison) m =
    if (atoi m).1
    then evaluate_comparison input comparison (atoi m).0
    else (false, some (not_an_integer m))

-- `Condition.Evaluate`
unfoldable pub evaluate : Regexp → Condition → Bytes → Bytes → ℤ → Result Panic Evaluation
evaluate re c m regex match_idx = do
  found ← found_match (re.find_string_submatch regex m) match_idx
  elim found [ none ↦ ok (false, some no_index) | some g ↦ ok (test_match c g) ]

-- A nil condition is one that the JSON text leaves out.
pub record Assertion : Type 0 where
  pub group_idx : ℤ
  pub condition : Option Condition

unfoldable pub evaluate_assertion : Regexp → Assertion → Bytes → Bytes → Result Panic Evaluation
evaluate_assertion re a m regex = elim a.condition [
  | none ↦ err nil_dereference
  | some c ↦ evaluate re c m regex a.group_idx
]

pub data BooleanLogic : Type 0 where
  and_boolean_logic : BooleanLogic
  or_boolean_logic : BooleanLogic

abbrev pub is_nil : Option EvalError → Bool
is_nil none = true
is_nil (some e) = false

-- `AndBooleanLogic.Evaluate`
unfoldable pub evaluate_and : Regexp → List Assertion → Bytes → Bytes → Result Panic Evaluation
evaluate_and re [] m regex = ok (true, none)
evaluate_and re (a ∷ rest) m regex = do
  r ← evaluate_assertion re a m regex
  let later = evaluate_and re rest m regex
  if not r.0 || not (is_nil r.1) then ok r else later

-- `OrBooleanLogic.Evaluate`
unfoldable pub evaluate_or : Regexp → List Assertion → Bytes → Bytes → Result Panic Evaluation
evaluate_or re [] m regex = ok (false, none)
evaluate_or re (a ∷ rest) m regex = do
  r ← evaluate_assertion re a m regex
  let later = evaluate_or re rest m regex
  elim r.1 [ some e ↦ ok (false, some e) | none ↦ if r.0 then ok (true, none) else later ]

-- The pointer to the logic is not nil, since the JSON decoding sets it or fails.
pub record Assertions : Type 0 where
  pub assertions : List Assertion
  pub logic : BooleanLogic

-- `(*composedAssertion.Logic).Evaluate`
unfoldable pub evaluate_logic :
    Regexp → BooleanLogic → List Assertion → Bytes → Bytes → Result Panic Evaluation
evaluate_logic re and_boolean_logic = evaluate_and re
evaluate_logic re or_boolean_logic = evaluate_or re

mutual
  -- `Pattern`, `ComposedAssertions`, `DefaultResult`, `NextStep`, `NextResultContexts`
  pub data ResultContext : Type 0 where
    result_context : Bytes → List Assertions → ℤ → Option Step → Contexts → ResultContext

  -- `[]*ResultContext`, with no nil entry
  pub data Contexts : Type 0 where
    no_contexts : Contexts
    cons_context : ResultContext → Contexts → Contexts

pub record Match : Type 0 where
  pub pattern : Bytes
  pub before : Bytes
  pub match : Bytes

-- `FailureReason`, by the place that sets it.
pub data FailureReason : Type 0 where
  no_reason : FailureReason
  undefined_pattern : FailureReason
  evaluation_error : EvalError → FailureReason

-- Without `Arguments`, `Identifier`, `Description`, `ReelMatchStep` and `TestTimeout`, which no method
-- of the handler reads.
pub record Generic : Type 0 where
  pub failure_reason : FailureReason
  pub matches : List Match
  pub reel_first_step : Option Step
  pub result_contexts : Contexts
  pub reel_match_result_map : Map Bytes ℤ
  pub reel_timeout_step : Option Step
  pub test_result : ℤ
  pub current_reel_match_result_contexts : Contexts

-- The loop of `init`.
unfoldable pub fill_result_map : Contexts → Map Bytes ℤ → Map Bytes ℤ
fill_result_map no_contexts m = m
fill_result_map (cons_context (result_context pattern groups default_result step next) rest) m =
    fill_result_map rest (insert pattern default_result m)

unfoldable pub init : Generic → Generic
unfolding fill_result_map
init g = record g {
  current_reel_match_result_contexts = g.result_contexts;
  reel_match_result_map = fill_result_map g.result_contexts [];
}

-- `findResultContext`: the first context with the pattern.
unfoldable pub find_result_context : Contexts → Bytes → Option ResultContext
find_result_context no_contexts pattern = none
find_result_context (cons_context (result_context p groups default_result step next) rest) pattern =
    if str_eq p pattern
    then some (result_context p groups default_result step next)
    else find_result_context rest pattern

-- The loop of `ReelMatch` over the composed assertions; `some g'` when it returns, with a nil step.
unfoldable pub evaluate_groups :
    Regexp → Generic → Option Step → List Assertions → Bytes → Bytes → Result Panic (Option Generic)
evaluate_groups re g next_step [] pattern m = ok none
evaluate_groups re g next_step (group ∷ groups) pattern m =
    let later = evaluate_groups re g next_step groups pattern m in
    if not (re.compiles pattern) then err bad_regular_expression else do
      r ← evaluate_logic re group.logic group.assertions m pattern
      elim r.1 [
        | some e ↦ ok (some (record g { failure_reason = evaluation_error e; test_result = error }))
        | none ↦
            if not r.0 then ok (some (record g { test_result = failure })) else elim next_step [
              | none ↦ ok (some (record g { test_result = success }))
              | some s ↦ later
            ]
      ]

-- What `ReelMatch` does with the context that it found.
unfoldable pub match_context :
    Regexp → Generic → ResultContext → Bytes → Bytes → Result Panic (Generic × Option Step)
unfolding evaluate_groups
match_context re g (result_context p groups default_result next_step next) pattern m = do
  decided ← evaluate_groups re g next_step groups pattern m
  elim decided [
    | some g' ↦ ok (g', none)
    | none ↦ elim next_step [
      | none ↦ ok (record g { test_result = default_result }, none)
      | some s ↦ ok (record g { current_reel_match_result_contexts = next }, some s)
    ]
  ]

unfoldable pub reel_match :
    Regexp → Bytes → Bytes → Bytes → Generic → Result Panic (Generic × Option Step)
unfolding match_context
reel_match re pattern before m g =
    let seen = record g {
      matches = g.matches ++ record { pattern = pattern; before = before; match = m } ∷ [];
    } in
    elim (find_result_context g.current_reel_match_result_contexts pattern) [
      | none ↦ ok (record seen { failure_reason = undefined_pattern; test_result = error }, none)
      | some context ↦ match_context re seen context pattern m
    ]

-- The `reel.Handler` methods of `Generic`.
unfoldable pub generic_handler : Regexp → Handler Generic
unfolding reel_match
generic_handler re = record {
  reel_first = λ g. ok (g, g.reel_first_step);
  reel_match = reel_match re;
  reel_timeout = λ g. ok (g, g.reel_timeout_step);
  reel_eof = λ g. g;
}
