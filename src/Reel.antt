-- ===== src/Reel.antt =====
-- pkg/tnf/reel/reel.go: driving a shell session step by step, as a handler directs.
--
-- The session (`expect.Expecter` of goexpect) is an argument: what `ExpectBatch` answers in each
-- round, and what the error channel has delivered into `r.Err` when the loop reads it.
pub mod Prompt
pub mod Patterns
pub mod Rounds
pub mod Ending
use test_network_function.Prelude.{
  ℕ, zero, suc, ◌+◌, ◌-◌, Bytes, codes, str_eq, List, [], ◌∷◌, ◌++◌, map, length, take, get_or,
  Bool, true, false, not, ◌&&◌, Option, none, some, Result, ok, err, ◌>>=◌, Panic,
  index_out_of_range, if◌then◌else◌, ◌==◌, ltb,
}
use test_network_function.Prelude.Int.{ℤ, pos, eq_ℤ}
use test_network_function.Strings.{split, index, trim_right, atoi}

abbrev pub newline : ℕ
newline = 10

abbrev pub end_of_test_sentinel : Bytes
end_of_test_sentinel = codes "END_OF_TEST_SENTINEL"

abbrev pub exit_keyword : Bytes
exit_keyword = codes "exit="

-- `EndOfTestRegexPostfix`, which is `matchSentinel`.
abbrev pub end_of_test_regex_postfix : Bytes
end_of_test_regex_postfix = codes "((.|\n)*END_OF_TEST_SENTINEL exit=[0-9]+\n)"

pub record Step : Type 0 where
  pub execute : Bytes
  pub expect : List Bytes
  pub timeout : ℕ  -- nanoseconds

unfoldable pub has_expectations : Step → Bool
has_expectations s = elim s.expect [ [] ↦ false | e ∷ es ↦ true ]

-- The interface `Handler`, over the state `S` of the object behind it. A method may panic.
pub record Handler (S : Type 0) : Type 0 where
  pub reel_first : S → Result Panic (S × Option Step)
  pub reel_match : Bytes → Bytes → Bytes → S → Result Panic (S × Option Step)
  pub reel_timeout : S → Result Panic (S × Option Step)
  pub reel_eof : S → S

-- `expect.Batcher`: text to send, or the cases to expect, each with its regular expression.
pub data Batcher : Type 0 where
  send : Bytes → Batcher
  expect_cases : List Bytes → Batcher

-- The part of `Reel` that stays the same: `disableTerminalPromptEmulation`.
pub record Reel : Type 0 where
  pub disable_terminal_prompt_emulation : Bool

-- What `Step` returns as its `error`.
pub data Error : Type 0 where
  session_error : Bytes → Error
  batch_error : Bytes → Error
  exit_code_error : ℤ → Error

unfoldable pub wrap_test_command : Bytes → Bytes
wrap_test_command cmd =
    trim_right newline cmd
    ++ (codes " ; echo " ++ (end_of_test_sentinel ++ (codes " " ++ (exit_keyword ++ codes "$?\n"))))

abbrev pub ends_in_newline : Bytes → Bool
ends_in_newline [] = false
ends_in_newline (c ∷ []) = c == newline
ends_in_newline (c ∷ d ∷ s) = ends_in_newline (d ∷ s)

-- The method `wrapTestCommand`.
unfoldable pub wrap_command : Reel → Bytes → Bytes
unfolding wrap_test_command
wrap_command r cmd =
    if not r.disable_terminal_prompt_emulation
    then wrap_test_command cmd
    else if ends_in_newline cmd
    then cmd
    else cmd ++ newline ∷ []

unfoldable pub add_emulated_regular_expression : Reel → Bytes → Bytes
add_emulated_regular_expression r e =
    if not r.disable_terminal_prompt_emulation then e ++ end_of_test_regex_postfix else e

unfoldable pub strip_emulated_regular_expression : Reel → Bytes → Bytes
strip_emulated_regular_expression r m =
    if not r.disable_terminal_prompt_emulation && ltb (length end_of_test_regex_postfix) (length m)
    then take (length m - length end_of_test_regex_postfix) m
    else m

-- `xs[1]` and `xs[0]`
unfoldable pub second : List Bytes → Result Panic Bytes
second (a ∷ b ∷ rest) = ok b
second _ = err index_out_of_range

unfoldable pub first : List Bytes → Result Panic Bytes
first (a ∷ rest) = ok a
first _ = err index_out_of_range

-- The status behind the sentinel; 1 if it is no number.
unfoldable pub parse_status : Bytes → Result Panic ℤ
unfolding first second
parse_status tail = do
  after ← second (split tail exit_keyword)
  line ← first (split after (newline ∷ []))
  ok (if (atoi line).1 then (atoi line).0 else pos 1)

unfoldable pub strip_parsed : Bytes → List Bytes → Result Panic (Bytes × ℤ)
unfolding parse_status
strip_parsed output (before ∷ tail ∷ []) = do
  status ← parse_status tail
  ok (trim_right newline before, status)
strip_parsed output _ = ok (output, pos 0)

unfoldable pub strip_emulated_prompt_from_output : Reel → Bytes → Result Panic (Bytes × ℤ)
unfolding strip_parsed
strip_emulated_prompt_from_output r output =
    if not r.disable_terminal_prompt_emulation
    then strip_parsed output (split output end_of_test_sentinel)
    else ok (output, pos 0)

unfoldable pub generate_batcher : Reel → Bytes → List Batcher
generate_batcher r execute = if str_eq execute [] then [] else send (wrap_command r execute) ∷ []

-- One case for each expectation, and the extra one for commands that print nothing. The
-- expressions are taken to compile; `regexp.MustCompile` panics otherwise.
unfoldable pub generate_cases : Reel → List Bytes → List Bytes
generate_cases r expectations =
    map (add_emulated_regular_expression r) expectations
    ++ add_emulated_regular_expression r [] ∷ []

unfoldable pub batch_expectations : Reel → List Bytes → List Batcher → List Batcher
batch_expectations r [] batcher = batcher
batch_expectations r (e ∷ es) batcher = batcher ++ expect_cases (generate_cases r (e ∷ es)) ∷ []

-- What `ExpectBatch` answers: a timeout, another error, no result, or the first result with the
-- number of its case, the output and the text that the case matched.
pub data Response : Type 0 where
  timed_out : Response
  failed : Bytes → Response
  no_results : Response
  matched : ℕ → Bytes → Bytes → Response

-- What the body of the loop does with the handler and the next step.
pub data Next (S : Type 0) : Type 0 where
  return : S → Option Error → Next S
  continue : S → Option Step → Next S

-- The text before the match, less the byte that stands right before it.
unfoldable pub text_before : Bytes → Bytes → Bytes
text_before output m = elim (index m output) [
  | none ↦ []
  | some i ↦ if ltb 0 i then take (i - 1) output else []
]

module _ {S : Type 0} (hd : Handler S) (r : Reel) where
  -- The branch of the loop for a result. `firstMatchRe` is the expression of the case that matched:
  -- goexpect calls the `T` of that case and of no other.
  unfoldable pub on_match : Step → S → ℕ → Bytes → Bytes → Result Panic (Next S)
  on_match step h case_idx result_output result_match = do
    out ← strip_emulated_prompt_from_output r result_output
    if not (eq_ℤ out.1 (pos 0)) then ok (return h (some (exit_code_error out.1))) else do
      m ← strip_emulated_prompt_from_output r result_match
      let cases = generate_cases r step.expect
      if case_idx == length cases - 1 then ok (continue h none) else do
        next ←
            hd.reel_match (strip_emulated_regular_expression r (get_or cases case_idx []))
              (text_before out.0 m.0) m.0 h
        ok (continue next.0 next.1)

  -- The body of the loop behind `ExpectBatch`.
  unfoldable pub react : Step → S → Response → Result Panic (Next S)
  unfolding on_match
  react step h response =
      if not (has_expectations step) then ok (return h none) else elim response [
        | timed_out ↦ do next ← hd.reel_timeout h; ok (continue next.0 next.1)
        | failed e ↦ ok (return h (some (batch_error e)))
        | no_results ↦ ok (continue h (some step))
        | matched case_idx out m ↦ on_match step h case_idx out m
      ]

-- The session, round by round.
pub record Session : Type 0 where
  -- `r.Err` when round `i` reads it
  pub channel_error : ℕ → Option Bytes
  -- what `ExpectBatch` answers in round `i` to the batchers and the timeout
  pub expect_batch : ℕ → List Batcher → ℕ → Response

-- How `Step` ends; `running` when the fuel ran out before.
pub data Ended (S : Type 0) : Type 0 where
  running : Ended S
  returned : S → Option Error → Ended S
  panicked : Panic → Ended S

module _ {S : Type 0} (hd : Handler S) (r : Reel) (session : Session) where
  -- The batchers of one step.
  unfoldable pub batchers : Step → List Batcher
  unfolding generate_batcher batch_expectations
  batchers step = batch_expectations r step.expect (generate_batcher r step.execute)

  -- `r.Step(step, handler)` from round `i`, with fuel for the rounds.
  unfoldable pub run_step : ℕ → ℕ → Option Step → S → Ended S
  unfolding react batchers
  run_step zero i step h = running
  run_step (suc fuel) i none h =
      returned h (elim (session.channel_error i) [ none ↦ none | some e ↦ some (session_error e) ])
  run_step (suc fuel) i (some step) h = elim (session.channel_error i) [
    | some e ↦ returned h (some (session_error e))
    | none ↦ elim (react hd r step h (session.expect_batch i (batchers step) step.timeout)) [
      | err p ↦ panicked p
      | ok (return h' e) ↦ returned h' e
      | ok (continue h' next) ↦ run_step fuel (i + 1) next h'
    ]
  ]

  -- `r.Run(handler)`
  unfoldable pub run : ℕ → S → Ended S
  unfolding run_step
  run fuel h = elim (hd.reel_first h) [
    | err p ↦ panicked p
    | ok first_step ↦ run_step fuel 0 first_step.1 first_step.0
  ]
