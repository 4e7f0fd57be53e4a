-- ===== src/Tests/Sessions.antt =====
-- pkg/tnf/reel at a shell session with two commands, and at one that never answers.
use test_network_function.Prelude.{
  ℕ, suc, ◌≡◌, ◌≢◌, refl, codes, [], ◌∷◌, ◌++◌, false, none, some, ok, arith, has_prefix,
}
use test_network_function.Strings.{trim_right, contains, atoi}
use test_network_function.Reel.{
  newline, Step, Handler, Reel, matched, timed_out, Session, running,
  strip_emulated_prompt_from_output, text_before, react, run,
}
use test_network_function.Reel.Prompt.{prompt, status_of, strip_emulated_prompt_from_output-prompt}
use test_network_function.Reel.Rounds.{continue_with, react-expected}
use test_network_function.Reel.Ending.{run_ends}

abbrev emulated : Reel
emulated = record { disable_terminal_prompt_emulation = false }

abbrev date_step : Step
date_step = record {
  execute = codes "date";
  expect = codes "[a-z]+" ∷ codes "[0-9]+" ∷ [];
  timeout = 10;
}

-- Sends one step, counts the matches, and gives up at a timeout.
abbrev counting : Handler ℕ
counting = record {
  reel_first = λ n. ok (n, some date_step);
  reel_match = λ pattern before m n. ok (suc n, none);
  reel_timeout = λ n. ok (n, none);
  reel_eof = λ n. n;
}

-- Sends its step again at each timeout.
abbrev patient : Handler ℕ
patient = record counting { reel_timeout = λ n. ok (n, some date_step) }

abbrev silent : Session
silent = record { channel_error = λ i. none; expect_batch = λ i bs t. timed_out }

strip_emulated_prompt_from_output-prompt_example :
    strip_emulated_prompt_from_output emulated (codes "up\n" ++ prompt (codes "17"))
    ≡ ok (trim_right newline (codes "up\n"), status_of (codes "17"))
strip_emulated_prompt_from_output-prompt_example =
    strip_emulated_prompt_from_output-prompt emulated (codes "up\n") (codes "17") refl
      (unfold contains has_prefix in refl)
      (omega arith, omega arith, (omega arith, omega arith, tt))

react-expected_example :
    react counting emulated date_step 5
      (matched 1 (codes "42\n" ++ prompt (codes "0")) (codes "42\n" ++ prompt (codes "0")))
    ≡ continue_with (
        counting.reel_match
          (codes "[0-9]+")
          (text_before (trim_right newline (codes "42\n")) (trim_right newline (codes "42\n")))
          (trim_right newline (codes "42\n"))
          5)
unfolding atoi
react-expected_example =
    react-expected counting emulated date_step 5 1 (codes "[0-9]+") (codes "42\n") (codes "42\n")
      (codes "0") (codes "0") refl refl (λ e. ground arith) (unfold contains has_prefix in refl)
      (unfold contains has_prefix in refl) (omega arith, omega arith, tt)
      (omega arith, omega arith, tt) refl

run_ends_example : run counting emulated silent 2 7 ≢ running
run_ends_example =
    run_ends counting emulated (λ n. Unit) (λ n. 0)
      (record {
        on_match = λ p before m h h' s u e. absurd (ground arith);
        on_timeout = λ h h' s u e. absurd (ground arith);
      })
      silent (λ i bs t e. absurd (ground arith)) 2 7 (λ h' first_step e. (tt, omega arith))
