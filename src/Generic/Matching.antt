-- ===== src/Generic/Matching.antt =====
-- `ReelMatch` of the generic handler.
use test_network_function.Prelude.{
  ◌≡◌, ◌⊎◌, ◌∙◌, ap, sym, inl, inr, refl, Bytes, List, [], ◌∷◌, ◌++◌, true, false, Option, none,
  some, Option-cases, Result-cases, ok, arith,
}
use test_network_function.Prelude.Int.{ℤ}
use test_network_function.Reel.{Step}
use test_network_function.Tnf.{error, success, failure}
use test_network_function.Generic.{
  Regexp, Assertions, result_context, Contexts, Generic, evaluate_logic, find_result_context,
  evaluate_groups, match_context, reel_match,
}

module _ (re : Regexp) where
  -- Every group of assertions is true of the match, with no error.
  abbrev pub AllTrue : List Assertions → Bytes → Bytes → Type 0
  AllTrue [] pattern m = Unit
  AllTrue (group ∷ groups) pattern m =
      (evaluate_logic re group.logic group.assertions m pattern ≡ ok (true, none))
      × AllTrue groups pattern m

  groups_passed :
      (g : Generic) (next_step : Option Step) (groups : List Assertions) (pattern m : Bytes)
      → evaluate_groups re g next_step groups pattern m ≡ ok none
      → AllTrue groups pattern m
  unfolding evaluate_groups
  groups_passed g next_step [] pattern m h = tt
  groups_passed g next_step (group ∷ groups) pattern m h =
      elim (Result-cases (evaluate_logic re group.logic group.assertions m pattern)) [
        | inl (p, e) ↦ absurd (ground arith)
        | inr ((b, some x), e) ↦ absurd (ground arith)
        | inr ((false, none), e) ↦ absurd (ground arith)
        | inr ((true, none), e) ↦ (e, groups_passed g next_step groups pattern m (ground arith))
      ]

  match_context-step :
      (g g' : Generic) (p pattern m : Bytes) (groups : List Assertions) (d : ℤ)
      (next_step : Option Step) (next : Contexts) (s : Step)
      → match_context re g (result_context p groups d next_step next) pattern m ≡ ok (g', some s)
      → (next_step ≡ some s)
        × AllTrue groups pattern m
        × (g' ≡ record g { current_reel_match_result_contexts = next })
  unfolding match_context
  match_context-step g g' p pattern m groups d next_step next s h =
      elim (Result-cases (evaluate_groups re g next_step groups pattern m)) [
        | inl (x, e) ↦ absurd (ground arith)
        | inr (some g'', e) ↦ absurd (ground arith)
        | inr (none, e) ↦ (ground arith, groups_passed g next_step groups pattern m e, ground arith)
      ]

  -- `ReelMatch` hands out a step only if a current context has the pattern, that context's next
  -- step is the one, and every group of its assertions is true of the match; then the match is
  -- recorded, the context's next contexts become current, and nothing else changes.
  pub reel_match-step :
      (pattern before m : Bytes) (g g' : Generic) (s : Step)
      → reel_match re pattern before m g ≡ ok (g', some s)
      → (p : Bytes) × (groups : List Assertions) × (d : ℤ) × (next : Contexts)
        × (find_result_context g.current_reel_match_result_contexts pattern
            ≡ some (result_context p groups d (some s) next))
        × AllTrue groups pattern m
        × (g' ≡ record g {
          matches = g.matches ++ record { pattern = pattern; before = before; match = m } ∷ [];
          current_reel_match_result_contexts = next;
        })
  unfolding reel_match
  reel_match-step pattern before m g g' s h =
      elim (Option-cases (find_result_context g.current_reel_match_result_contexts pattern)) [
        | inl e ↦ absurd (ground arith)
        | inr (result_context p groups d next_step next, e) ↦
            let seen : Generic = record g {
              matches = g.matches ++ record { pattern = pattern; before = before; match = m } ∷ [];
            } in
            let (same, true_all, final) =
              match_context-step seen g' p pattern m groups d next_step next s (ground arith) in
            (
              p,
              groups,
              d,
              next,
              e ∙ ap (λ o. some (result_context p groups d o next)) same,
              true_all,
              final,
            )
      ]

  -- With no next step, only the first group of assertions is looked at: if it is true, the result
  -- is SUCCESS, whatever the other groups say of the match.
  pub reel_match_first_group :
      (pattern before m p : Bytes) (g : Generic) (group : Assertions) (groups : List Assertions)
      (d : ℤ) (next : Contexts)
      → find_result_context g.current_reel_match_result_contexts pattern
        ≡ some (result_context p (group ∷ groups) d none next)
      → re.compiles pattern ≡ true
      → evaluate_logic re group.logic group.assertions m pattern ≡ ok (true, none)
      → reel_match re pattern before m g
        ≡ ok (
          record g {
            matches = g.matches ++ record { pattern = pattern; before = before; match = m } ∷ [];
            test_result = success;
          },
          none,
        )
  unfolding reel_match
  reel_match_first_group pattern before m p g group groups d next found c h = ground arith

  -- What returning from the loop over the groups can change.
  groups_decided :
      (g g' : Generic) (next_step : Option Step) (groups : List Assertions) (pattern m : Bytes)
      → evaluate_groups re g next_step groups pattern m ≡ ok (some g')
      → (g'.matches ≡ g.matches)
        × (g'.current_reel_match_result_contexts ≡ g.current_reel_match_result_contexts)
        × ((g'.test_result ≡ error) ⊎ (g'.test_result ≡ failure) ⊎ (g'.test_result ≡ success))
  unfolding evaluate_groups
  groups_decided g g' next_step [] pattern m h = ground arith
  groups_decided g g' next_step (group ∷ groups) pattern m h =
      elim (Result-cases (evaluate_logic re group.logic group.assertions m pattern)) [
        | inl (p, e) ↦ absurd (ground arith)
        | inr ((b, some x), e) ↦ ground arith
        | inr ((false, none), e) ↦ ground arith
        | inr ((true, none), e) ↦ ground (arith, groups_decided g g' next_step groups pattern m)
      ]

  match_context-none :
      (g g' : Generic) (p pattern m : Bytes) (groups : List Assertions) (d : ℤ)
      (next_step : Option Step) (next : Contexts)
      → match_context re g (result_context p groups d next_step next) pattern m ≡ ok (g', none)
      → (g'.matches ≡ g.matches)
        × (g'.current_reel_match_result_contexts ≡ g.current_reel_match_result_contexts)
        × (((g'.test_result ≡ error) ⊎ (g'.test_result ≡ failure) ⊎ (g'.test_result ≡ success))
            ⊎ ((g'.test_result ≡ d) × (next_step ≡ none)))
  unfolding match_context
  match_context-none g g' p pattern m groups d next_step next h =
      elim (Result-cases (evaluate_groups re g next_step groups pattern m)) [
        | inl (x, e) ↦ absurd (ground arith)
        | inr (some g'', e) ↦
            let (a, b, c) = groups_decided g g' next_step groups pattern m (ground arith) in
            (a, b, inl c)
        | inr (none, e) ↦ undecided next_step e h
      ]
    where
      undecided :
          (o : Option Step)
          → evaluate_groups re g o groups pattern m ≡ ok none
          → match_context re g (result_context p groups d o next) pattern m ≡ ok (g', none)
          → (g'.matches ≡ g.matches)
            × (g'.current_reel_match_result_contexts ≡ g.current_reel_match_result_contexts)
            × (((g'.test_result ≡ error) ⊎ (g'.test_result ≡ failure) ⊎ (g'.test_result ≡ success))
                ⊎ ((g'.test_result ≡ d) × (o ≡ none)))
      undecided none e h' = (ground arith, ground arith, inr (ground arith, refl))
      undecided (some s) e h' = absurd (ground arith)

  -- The result of the handler is one of the three, or the default of the context with the pattern.
  abbrev pub IsVerdict : Generic → Bytes → ℤ → Type 0
  IsVerdict g pattern r =
      ((r ≡ error) ⊎ (r ≡ failure) ⊎ (r ≡ success))
      ⊎ ((p : Bytes) × (groups : List Assertions) × (next : Contexts) × (find_result_context
              g.current_reel_match_result_contexts pattern
            ≡ some (result_context p groups r none next)))

  from_context :
      (g : Generic) (pattern : Bytes) (r : ℤ) (p : Bytes) (groups : List Assertions) (d : ℤ)
      (next_step : Option Step) (next : Contexts)
      → find_result_context g.current_reel_match_result_contexts pattern
        ≡ some (result_context p groups d next_step next)
      → ((r ≡ error) ⊎ (r ≡ failure) ⊎ (r ≡ success)) ⊎ ((r ≡ d) × (next_step ≡ none))
      → IsVerdict g pattern r
  from_context g pattern r p groups d next_step next e (inl three) = inl three
  from_context g pattern r p groups d next_step next e (inr (same, last)) = inr (
    p,
    groups,
    next,
    e
        ∙ ap (λ o. some (result_context p groups d o next)) last
        ∙ ap (λ x. some (result_context p groups x none next)) (sym same),
  )

  -- If `ReelMatch` hands out no step, the match is recorded, the contexts stay, and the result is
  -- ERROR, FAILURE or SUCCESS, or the default of the context that has the pattern.
  pub reel_match-IsVerdict :
      (pattern before m : Bytes) (g g' : Generic)
      → reel_match re pattern before m g ≡ ok (g', none)
      → (g'.matches ≡ g.matches ++ record { pattern = pattern; before = before; match = m } ∷ [])
        × (g'.current_reel_match_result_contexts ≡ g.current_reel_match_result_contexts)
        × IsVerdict g pattern g'.test_result
  unfolding reel_match
  reel_match-IsVerdict pattern before m g g' h =
      elim (Option-cases (find_result_context g.current_reel_match_result_contexts pattern)) [
        | inl e ↦ (ground arith, ground arith, inl (ground arith))
        | inr (result_context p groups d next_step next, e) ↦
            let seen : Generic = record g {
              matches = g.matches ++ record { pattern = pattern; before = before; match = m } ∷ [];
            } in
            let (same_matches, same_contexts, verdict) =
              match_context-none seen g' p pattern m groups d next_step next (ground arith) in
            (
              same_matches,
              same_contexts,
              from_context g pattern g'.test_result p groups d next_step next e verdict,
            )
      ]
