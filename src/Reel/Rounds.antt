-- ===== src/Reel/Rounds.antt =====
-- One round of the loop of `Step`: what the handler is told, and when it is not asked.
use test_network_function.Prelude.{
  ℕ, ◌-◌, ◌≡◌, ◌≢◌, ◌∙◌, ap, Bytes, List, [], ◌∷◌, ◌++◌, length, get_elem?, true, false, Option,
  none, some, Result, ok, ◌>>=◌, Panic, arith, ◌==◌,
}
use test_network_function.Prelude.Int.{ℤ, pos, eq_ℤ_iff}
use test_network_function.Strings.{contains, trim_right}
use test_network_function.Reel.{
  newline, end_of_test_sentinel, Step, Handler, Reel, exit_code_error, Next, return, continue,
  matched, has_expectations, strip_emulated_prompt_from_output, generate_cases, text_before,
  on_match, react,
}
use test_network_function.Reel.Prompt.{
  AllDigits, prompt, status_of, strip_emulated_prompt_from_output-prompt,
}
use test_network_function.Reel.Patterns.{
  strip-add_emulated_regular_expression, get_or-generate_cases, length-generate_cases, get_elem?-lt,
}

-- What `ReelMatch` returned, as the next turn of the loop.
abbrev pub continue_with : {S : Type 0} → Result Panic (S × Option Step) → Result Panic (Next S)
continue_with call = do next ← call; ok (continue next.0 next.1)

elem_nonempty : (es : List Bytes) (i : ℕ) (e : Bytes) → get_elem? es i ≡ some e → es ≢ []
elem_nonempty [] i e h = ground arith
elem_nonempty (d ∷ es) i e h = λ p. cc

has_expectations-true : (s : Step) → s.expect ≢ [] → has_expectations s ≡ true
unfolding has_expectations
has_expectations-true s h = ground (arith, h)

module _ {S : Type 0} (hd : Handler S) (r : Reel) where
  on_match-expected :
      (step : Step) (h : S) (i : ℕ) (e out m out' m' : Bytes) (status' : ℤ)
      → get_elem? step.expect i ≡ some e
      → e ≢ []
      → strip_emulated_prompt_from_output r out ≡ ok (out', pos 0)
      → strip_emulated_prompt_from_output r m ≡ ok (m', status')
      → on_match hd r step h i out m ≡ continue_with (hd.reel_match e (text_before out' m') m' h)
  unfolding on_match
  on_match-expected step h i e out m out' m' status' at full clean match =
      let not_extra : (i == length (generate_cases r step.expect) - 1) ≡ false =
        ground (arith, length-generate_cases r step.expect, get_elem?-lt step.expect i at) in
      rw (
        clean,
        match,
        not_extra,
        get_or-generate_cases r step.expect i e at,
        strip-add_emulated_regular_expression r e full,
      )

  -- In a shell with the prompt emulated, when the output fits expectation number `i` of the step,
  -- which is not empty, the command has exited with status 0, and neither its output nor the match
  -- contains the sentinel itself, the handler's `ReelMatch` is called with that expectation as the
  -- handler wrote it and with the matched text less its trailing newlines.
  pub react-expected :
      (step : Step) (h : S) (i : ℕ) (e out m out_digits m_digits : Bytes)
      → r.disable_terminal_prompt_emulation ≡ false
      → get_elem? step.expect i ≡ some e
      → e ≢ []
      → contains end_of_test_sentinel out ≡ false
      → contains end_of_test_sentinel m ≡ false
      → AllDigits out_digits
      → AllDigits m_digits
      → status_of out_digits ≡ pos 0
      → react hd r step h (matched i (out ++ prompt out_digits) (m ++ prompt m_digits))
        ≡ continue_with (
            hd.reel_match e
              (text_before (trim_right newline out) (trim_right newline m))
              (trim_right newline m)
              h)
  unfolding react
  react-expected step h i e out m out_digits m_digits on at full clean clean' ds ds' zero_status =
      rw (has_expectations-true step (elem_nonempty step.expect i e at)) (
        on_match-expected step h i e _ _ (trim_right newline out) (trim_right newline m)
          (status_of m_digits) at full
          (strip_emulated_prompt_from_output-prompt r out out_digits on clean ds
            ∙ ap (λ s. ok (trim_right newline out, s)) zero_status)
          (strip_emulated_prompt_from_output-prompt r m m_digits on clean' ds'))

  -- With the prompt emulated and a step that has expectations, whatever was matched, a command that
  -- exited with another status than 0, and whose output does not contain the sentinel, ends the run
  -- with the error that names the status, and no method of the handler is called.
  pub react_exit_code :
      (step : Step) (h : S) (i : ℕ) (out m digits : Bytes)
      → r.disable_terminal_prompt_emulation ≡ false
      → step.expect ≢ []
      → contains end_of_test_sentinel out ≡ false
      → AllDigits digits
      → status_of digits ≢ pos 0
      → react hd r step h (matched i (out ++ prompt digits) m)
        ≡ ok (return h (some (exit_code_error (status_of digits))))
  unfolding react
  react_exit_code step h i out m digits on full clean ds nonzero =
      rw
        (
          has_expectations-true step full,
          strip_emulated_prompt_from_output-prompt r out digits on clean ds,
        )
        (ground (arith, eq_ℤ_iff (status_of digits) (pos 0), nonzero))

  -- With the prompt emulated and a step that has expectations, a match of the extra case behind the
  -- expectations, by a command with status 0 whose output and match do not contain the sentinel,
  -- ends the run with no error and without a call of the handler.
  pub react_extra_case :
      (step : Step) (h : S) (out m digits m_digits : Bytes)
      → r.disable_terminal_prompt_emulation ≡ false
      → step.expect ≢ []
      → contains end_of_test_sentinel out ≡ false
      → contains end_of_test_sentinel m ≡ false
      → AllDigits digits
      → AllDigits m_digits
      → status_of digits ≡ pos 0
      → react hd r step h
          (matched (length step.expect) (out ++ prompt digits) (m ++ prompt m_digits))
        ≡ ok (continue h none)
  unfolding react
  react_extra_case step h out m digits m_digits on full clean clean' ds ds' zero_status =
      let extra : (length step.expect == length (generate_cases r step.expect) - 1) ≡ true =
        ground (arith, length-generate_cases r step.expect) in
      rw (
        has_expectations-true step full,
        strip_emulated_prompt_from_output-prompt r out digits on clean ds,
        zero_status,
        strip_emulated_prompt_from_output-prompt r m m_digits on clean' ds',
        extra,
      )
