-- ===== src/Handlers/Runs.antt =====
-- What a run of a single-shot handler does, from the session to the state of the handler.
use test_network_function.Prelude.{
  ℕ, ◌≡◌, ◌≢◌, Bytes, List, [], ◌++◌, get_elem?, false, Option, none, some, Result, Result-cases,
  inl, inr, ok, Panic, arith,
}
use test_network_function.Prelude.Int.{ℤ, pos}
use test_network_function.Strings.{contains, trim_right}
use test_network_function.Reel.{
  newline, end_of_test_sentinel, Step, Reel, matched, Session, returned, batchers, text_before,
  run_step, run,
}
use test_network_function.Reel.Prompt.{AllDigits, prompt, status_of}
use test_network_function.Reel.Rounds.{react-expected}
use test_network_function.Tnf.{unfinished, run_test}
use test_network_function.Tnf.Chain.{IsSingleShot, run_test_ends}
use test_network_function.Reel.Ending.{Answers}
use test_network_function.Handlers.{single_shot}

module _ {S : Type 0} (first_step : S → Step)
    (read_match : Bytes → Bytes → Bytes → S → Result Panic S) where
  no_step :
      (pattern before m : Bytes) (h h' : S) (o : Option Step)
      → (single_shot first_step read_match).reel_match pattern before m h ≡ ok (h', o)
      → o ≡ none
  unfolding single_shot
  no_step pattern before m h h' o e = elim (Result-cases (read_match pattern before m h)) [
    | inl (p, bad) ↦ absurd (ground arith)
    | inr (x, good) ↦ ground arith
  ]

  pub single_shot-IsSingleShot : IsSingleShot (single_shot first_step read_match)
  unfolding single_shot
  single_shot-IsSingleShot = record { on_match = no_step; on_timeout = λ h h' o e. ground arith }

  -- A test over a chain of single-shot handlers ends within two rounds of the loop, in every
  -- session that answers.
  pub single_shot_ends :
      (tester_result : List S → ℤ) (r : Reel) (session : Session) (chain : List S)
      → Answers session
      → run_test (single_shot first_step read_match) tester_result r session 2 chain ≢ unfinished
  single_shot_ends tester_result r session chain answers =
      run_test_ends (single_shot first_step read_match) tester_result r session
        single_shot-IsSingleShot answers 2 chain (omega arith)

  -- With the prompt emulated and a silent error channel, if the session answers the first step with
  -- a match of expectation `i`, which is not empty, with exit status 0, and neither output nor
  -- match contains the sentinel, the run ends with no error and in the state that the handler's
  -- `ReelMatch` makes of the matched text less its trailing newlines, provided that `ReelMatch`
  -- does not panic.
  pub run-single_shot :
      (r : Reel) (session : Session) (h h' : S) (i : ℕ) (e out m out_digits m_digits : Bytes)
      → r.disable_terminal_prompt_emulation ≡ false
      → ((j : ℕ) → session.channel_error j ≡ none)
      → session.expect_batch 0
          (batchers (single_shot first_step read_match) r session (first_step h))
          (first_step h).timeout
        ≡ matched i (out ++ prompt out_digits) (m ++ prompt m_digits)
      → get_elem? (first_step h).expect i ≡ some e
      → e ≢ []
      → contains end_of_test_sentinel out ≡ false
      → contains end_of_test_sentinel m ≡ false
      → AllDigits out_digits
      → AllDigits m_digits
      → status_of out_digits ≡ pos 0
      → read_match e
          (text_before (trim_right newline out) (trim_right newline m))
          (trim_right newline m)
          h
        ≡ ok h'
      → run (single_shot first_step read_match) r session 2 h ≡ returned h' none
  unfolding run run_step single_shot
  run-single_shot r session h h' i e out m od md on silent answer at full clean clean' ds ds'
        zero_status read =
      let round =
        react-expected (single_shot first_step read_match) r (first_step h) h i e out m od md on at
          full clean clean' ds ds' zero_status in
      ground (arith, silent 0, silent 1, answer, round, read)
