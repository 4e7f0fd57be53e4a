-- ===== src/Generic/Logics.antt =====
-- The Boolean logics over a list of assertions.
use test_network_function.Prelude.{
  ◌≡◌, ◌↔◌, ◌⊎◌, inl, inr, refl, Bytes, List, [], ◌∷◌, Bool, true, false, none, some, Result-cases,
  ok, arith,
}
use test_network_function.Generic.{Regexp, Assertion, evaluate_assertion, evaluate_and, evaluate_or}

module _ (re : Regexp) (m regex : Bytes) where
  -- The assertion evaluates to the value with no error and no panic.
  abbrev pub EvaluatesTo : Assertion → Bool → Type 0
  EvaluatesTo a b = evaluate_assertion re a m regex ≡ ok (b, none)

  abbrev pub AllEvaluateTo : List Assertion → Bool → Type 0
  AllEvaluateTo [] b = Unit
  AllEvaluateTo (a ∷ rest) b = EvaluatesTo a b × AllEvaluateTo rest b

  -- Some assertion is true, and those before it are false, all with no error.
  abbrev pub FirstTrue : List Assertion → Type 0
  FirstTrue [] = ⊥
  FirstTrue (a ∷ rest) = EvaluatesTo a true ⊎ (EvaluatesTo a false × FirstTrue rest)

  and_sound :
      (group : List Assertion)
      → evaluate_and re group m regex ≡ ok (true, none)
      → AllEvaluateTo group true
  unfolding evaluate_and
  and_sound [] h = tt
  and_sound (a ∷ rest) h = elim (Result-cases (evaluate_assertion re a m regex)) [
    | inl (p, e) ↦ absurd (ground arith)
    | inr ((b, x), e) ↦ (ground arith, and_sound rest (ground arith))
  ]

  and_complete :
      (group : List Assertion)
      → AllEvaluateTo group true
      → evaluate_and re group m regex ≡ ok (true, none)
  unfolding evaluate_and
  and_complete [] h = refl
  and_complete (a ∷ rest) (h, hs) = rw h (and_complete rest hs)

  -- The conjunction is true, with no error, exactly when every assertion is.
  pub evaluate_and_iff :
      (group : List Assertion)
      → (evaluate_and re group m regex ≡ ok (true, none)) ↔ AllEvaluateTo group true
  evaluate_and_iff group = (and_sound group, and_complete group)

  or_false_sound :
      (group : List Assertion)
      → evaluate_or re group m regex ≡ ok (false, none)
      → AllEvaluateTo group false
  unfolding evaluate_or
  or_false_sound [] h = tt
  or_false_sound (a ∷ rest) h = elim (Result-cases (evaluate_assertion re a m regex)) [
    | inl (p, e) ↦ absurd (ground arith)
    | inr ((b, x), e) ↦ (ground arith, or_false_sound rest (ground arith))
  ]

  or_false_complete :
      (group : List Assertion)
      → AllEvaluateTo group false
      → evaluate_or re group m regex ≡ ok (false, none)
  unfolding evaluate_or
  or_false_complete [] h = refl
  or_false_complete (a ∷ rest) (h, hs) = rw h (or_false_complete rest hs)

  or_true_sound :
      (group : List Assertion) → evaluate_or re group m regex ≡ ok (true, none) → FirstTrue group
  unfolding evaluate_or
  or_true_sound [] h = ground arith
  or_true_sound (a ∷ rest) h = elim (Result-cases (evaluate_assertion re a m regex)) [
    | inl (p, e) ↦ absurd (ground arith)
    | inr ((true, none), e) ↦ inl e
    | inr ((false, none), e) ↦ inr (e, or_true_sound rest (ground arith))
    | inr ((b, some x), e) ↦ absurd (ground arith)
  ]

  or_true_complete :
      (group : List Assertion) → FirstTrue group → evaluate_or re group m regex ≡ ok (true, none)
  unfolding evaluate_or
  or_true_complete [] h = absurd h
  or_true_complete (a ∷ rest) (inl h) = rw h
  or_true_complete (a ∷ rest) (inr (h, hs)) = rw h (or_true_complete rest hs)

  -- The disjunction is false, with no error, exactly when every assertion is false; it is true
  -- exactly when some assertion is true and all before it are false, with no error up to there.
  pub evaluate_or_iff :
      (group : List Assertion)
      → ((evaluate_or re group m regex ≡ ok (false, none)) ↔ AllEvaluateTo group false)
        × ((evaluate_or re group m regex ≡ ok (true, none)) ↔ FirstTrue group)
  evaluate_or_iff group = (
    (or_false_sound group, or_false_complete group),
    (or_true_sound group, or_true_complete group),
  )
