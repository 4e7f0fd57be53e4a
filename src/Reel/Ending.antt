-- ===== src/Reel/Ending.antt =====
-- When the loop of `Step` ends.
use test_network_function.Prelude.{
  ℕ, zero, suc, ◌+◌, ◌<◌, ◌≡◌, ◌≢◌, refl, Bytes, List, [], true, Option, none, some, Option-cases,
  Result-cases, inl, inr, Result, ok, err, ◌>>=◌, Panic, arith, get_or,
}
use test_network_function.Reel.{
  Step, Handler, Reel, Next, return, continue, Response, timed_out, failed, no_results, matched,
  Session, running, has_expectations, on_match, react, batchers, run_step, run,
  strip_emulated_prompt_from_output, strip_emulated_regular_expression, generate_cases, text_before,
  Batcher,
}

-- Where the invariant holds of the handler's state, each step that the handler asks for behind its
-- first keeps the invariant, and a rank of the state falls.
pub record Decreases {S : Type 0} (hd : Handler S) (P : S → Type 0) (rank : S → ℕ) : Type 0 where
  pub on_match :
      (p before m : Bytes) (h h' : S) (s : Step)
      → P h
      → hd.reel_match p before m h ≡ ok (h', some s)
      → P h' × (rank h' < rank h)
  pub on_timeout :
      (h h' : S) (s : Step) → P h → hd.reel_timeout h ≡ ok (h', some s) → P h' × (rank h' < rank h)

-- `ExpectBatch` answers a batch with cases by a match or by an error: goexpect returns no empty
-- list of results with a nil error.
abbrev pub Answers : Session → Type 0
Answers session = (i : ℕ) (bs : List Batcher) (t : ℕ) → session.expect_batch i bs t ≢ no_results

continue_with-inv :
    {S : Type 0} (call : Result Panic (S × Option Step)) (h' : S) (s : Step)
    → (call >>= λ next. ok (continue next.0 next.1)) ≡ ok (continue h' (some s))
    → call ≡ ok (h', some s)
continue_with-inv (ok (h, o)) h' s e = ground arith
continue_with-inv (err p) h' s e = ground arith

module _ {S : Type 0} (hd : Handler S) (r : Reel) (P : S → Type 0) (rank : S → ℕ)
    (dec : Decreases hd P rank) where
  on_match-rank :
      (step s : Step) (h h' : S) (i : ℕ) (out m : Bytes)
      → P h
      → on_match hd r step h i out m ≡ ok (continue h' (some s))
      → P h' × (rank h' < rank h)
  unfolding on_match
  on_match-rank step s h h' i out m ph e =
      elim (Result-cases (strip_emulated_prompt_from_output r out)) [
        | inl (p, bad) ↦ absurd (ground arith)
        | inr (o, good) ↦ elim (Result-cases (strip_emulated_prompt_from_output r m)) [
          | inl (p, bad) ↦ absurd (ground arith)
          | inr (o', good') ↦
              let pattern =
                strip_emulated_regular_expression r (get_or (generate_cases r step.expect) i []) in
              dec.on_match pattern (text_before o.0 o'.0) o'.0 h h' s ph (
                continue_with-inv (hd.reel_match pattern (text_before o.0 o'.0) o'.0 h) h' s
                  (ground arith))
        ]
      ]

  react-rank :
      (step s : Step) (h h' : S) (response : Response)
      → P h
      → response ≢ no_results
      → react hd r step h response ≡ ok (continue h' (some s))
      → P h' × (rank h' < rank h)
  unfolding react
  react-rank step s h h' timed_out ph ne e =
      dec.on_timeout h h' s ph (continue_with-inv (hd.reel_timeout h) h' s (ground arith))
  react-rank step s h h' (failed x) ph ne e = absurd (ground arith)
  react-rank step s h h' no_results ph ne e = absurd (ne refl)
  react-rank step s h h' (matched i out m) ph ne e =
      on_match-rank step s h h' i out m ph (ground arith)

  module _ (session : Session) (answers : Answers session) where
    run_step_ends :
        (fuel i : ℕ) (step : Step) (h : S)
        → P h
        → rank h + 1 < fuel
        → run_step hd r session fuel i (some step) h ≢ running
    unfolding run_step
    run_step_ends zero i step h ph f = absurd (omega arith)
    run_step_ends (suc zero) i step h ph f = absurd (omega arith)
    run_step_ends (suc (suc fuel)) i step h ph f = elim (Option-cases (session.channel_error i)) [
      | inr (x, bad) ↦ ground arith
      | inl fine ↦
          go (react hd r step h response) refl fine
            (λ s h' ph' lt. run_step_ends (suc fuel) (i + 1) s h' ph' (omega arith))
    ]
      where
        response : Response
        response = session.expect_batch i (batchers hd r session step) step.timeout

        go :
            (n : Result Panic (Next S))
            → react hd r step h response ≡ n
            → session.channel_error i ≡ none
            → ((s : Step) (h' : S)
                → P h'
                → rank h' < rank h
                → run_step hd r session (suc fuel) (i + 1) (some s) h' ≢ running)
            → run_step hd r session (suc (suc fuel)) i (some step) h ≢ running
        go (err p) e fine later = ground arith
        go (ok (return h' x)) e fine later = ground arith
        go (ok (continue h' none)) e fine later = ground arith
        go (ok (continue h' (some s))) e fine later =
            let (ph', lt) = react-rank step s h h' response ph (answers i _ _) e in
            ground (arith, later s h' ph' lt)

    any_step_ends :
        (fuel : ℕ) (next : Option Step) (h : S)
        → P h
        → rank h + 1 < fuel
        → run_step hd r session fuel 0 next h ≢ running
    any_step_ends zero none h ph f = absurd (omega arith)
    any_step_ends (suc fuel) none h ph f = unfold run_step in ground arith
    any_step_ends fuel (some step) h ph f = run_step_ends fuel 0 step h ph f

    -- If each step that a handler asks for behind its first one keeps an invariant of its state and
    -- makes a rank of the state fall, and the first step leads to a state with the invariant, its
    -- run ends, with an error, a panic or without, in every session that never answers with an
    -- empty list of results: two rounds more than the rank are enough.
    pub run_ends :
        (fuel : ℕ) (h : S)
        → ((h' : S) (first_step : Option Step)
            → hd.reel_first h ≡ ok (h', first_step)
            → P h' × (rank h' + 1 < fuel))
        → run hd r session fuel h ≢ running
    unfolding run
    run_ends fuel h f = elim (Result-cases (hd.reel_first h)) [
      | inl (p, bad) ↦ ground arith
      | inr ((h', next), good) ↦
          let (ph, enough) = f h' next good in ground (arith, any_step_ends fuel next h' ph enough)
    ]

react_timed_out :
    {S : Type 0} (hd : Handler S) (r : Reel) (step s : Step) (h h' : S)
    → has_expectations step ≡ true
    → hd.reel_timeout h ≡ ok (h', some s)
    → react hd r step h timed_out ≡ ok (continue h' (some s))
unfolding react
react_timed_out hd r step s h h' e asked = rw (e, asked)

-- A handler that answers each timeout with a step that has expectations never ends while the
-- session times out in each round and the error channel is silent, whatever fuel is given.
pub run_step_never_ends :
    {S : Type 0} (hd : Handler S) (r : Reel) (session : Session)
    → ((h : S)
        → (h' : S) × (s : Step) × (hd.reel_timeout h ≡ ok (h', some s))
          × (has_expectations s ≡ true))
    → ((i : ℕ) (bs : List Batcher) (t : ℕ) → session.expect_batch i bs t ≡ timed_out)
    → ((i : ℕ) → session.channel_error i ≡ none)
    → (fuel i : ℕ) (step : Step) (h : S) → has_expectations step ≡ true
    → run_step hd r session fuel i (some step) h ≡ running
unfolding run_step
run_step_never_ends hd r session again late silent zero i step h e = refl
run_step_never_ends hd r session again late silent (suc fuel) i step h e =
    let (h', s, asked, e') = again h in
    ground (
      arith,
      silent i,
      late i (batchers hd r session step) step.timeout,
      react_timed_out hd r step s h h' e asked,
      run_step_never_ends hd r session again late silent fuel (i + 1) s h' e',
    )
