-- ===== src/Grade/Grading.antt =====
-- `doGrading`: each grade of the policy against the results of the claim.
use mathlib.Core.List.{Perm, perm_middle}
use mathlib.Core.List.Perm
use test_network_function.Prelude.{
  ◌≡◌, ◌≢◌, ◌↔◌, ◌∙◌, refl, sym, ap, Bytes, Bool, true, false, List, [], ◌∷◌, ◌++◌, append_assoc,
  append-nil, Option, none, some, Bool-cases, inl, inr, Map, bytes_eq, lookup, Result, ok, err,
  ◌>>=◌, >>=-eq-ok, arith, if◌then◌else◌,
}
use test_network_function.Json.{Value}
use test_network_function.Grade.{
  Error, Identifier, Grade, no_grade, grade, Policy, first_grade, GradeResult, new_grade_result,
  generate_test_results_key, process_test_results, file_test, grade_tests, is_empty, with_propose,
  grade_chain, do_grading,
}

with_propose_lem :
    (n : Bytes) (p f : List Identifier)
    → with_propose true (record (new_grade_result n) { pass = p; fail = f })
      ≡ record { name = n; propose = is_empty f; pass = p; fail = f }
unfolding with_propose new_grade_result
with_propose_lem n p [] = refl
with_propose_lem n p (id ∷ f) = refl

is_empty-false {ℓ} : {A : Type ℓ} (xs : List A) → xs ≢ [] → is_empty xs ≡ false
is_empty-false [] h = absurd (h refl)
is_empty-false (x ∷ xs) h = refl

module _ (results : Map Bytes Value) where
  abbrev recorded : Identifier → Option Value
  recorded id = lookup (generate_test_results_key id) results

  -- The verdict on one test: a test with no results has not passed.
  unfoldable pub verdict : Identifier → Result Error Bool
  verdict id = elim (recorded id) [ none ↦ ok false | some r ↦ process_test_results r ]

  -- Every required test of the chain has a verdict.
  abbrev pub HaveVerdicts : List Identifier → Type 0
  HaveVerdicts [] = Unit
  HaveVerdicts (id ∷ ids) = ((b : Bool) × (verdict id ≡ ok b)) × HaveVerdicts ids

  abbrev pub IsGradable : Grade → Type 0
  IsGradable no_grade = Unit
  IsGradable (grade n tests next) = HaveVerdicts tests × IsGradable next

  abbrev is_pass : Result Error Bool → Bool
  is_pass (ok b) = b
  is_pass (err e) = false

  abbrev pub passing : List Identifier → List Identifier
  passing [] = []
  passing (id ∷ ids) = if is_pass (verdict id) then id ∷ passing ids else passing ids

  abbrev pub failing : List Identifier → List Identifier
  failing [] = []
  failing (id ∷ ids) = if is_pass (verdict id) then failing ids else id ∷ failing ids

  abbrev pub graded_one : Bytes → List Identifier → GradeResult
  graded_one n tests = record {
    name = n;
    propose = is_empty (failing tests);
    pass = passing tests;
    fail = failing tests;
  }

  -- The specification: one result for each grade, in the order of the chain, that splits the
  -- required tests by their verdicts and proposes the grade exactly if none failed.
  abbrev pub graded : Grade → List GradeResult
  graded no_grade = []
  graded (grade n tests next) = graded_one n tests ∷ graded next

  grade_tests_step :
      (id : Identifier) (ids : List Identifier) (g : GradeResult)
      → grade_tests results (id ∷ ids) g
        ≡ (verdict id >>= λ b. grade_tests results ids (file_test id b g))
  unfolding grade_tests verdict
  grade_tests_step id ids g = ground arith

  abbrev filed : List Identifier → GradeResult → GradeResult
  filed ids g = record g { pass = g.pass ++ passing ids; fail = g.fail ++ failing ids }

  filed_step :
      (id : Identifier) (ids : List Identifier) (g : GradeResult) (b : Bool)
      → verdict id ≡ ok b
      → filed ids (file_test id b g) ≡ filed (id ∷ ids) g
  unfolding file_test
  filed_step id ids g true h = rw h (simp append_assoc)
  filed_step id ids g false h = rw h (simp append_assoc)

  grade_tests_complete :
      (ids : List Identifier) (g : GradeResult)
      → HaveVerdicts ids
      → grade_tests results ids g ≡ ok (filed ids g)
  grade_tests_complete [] g h = unfold grade_tests in simp append-nil
  grade_tests_complete (id ∷ ids) g ((b, h), hs) =
      grade_tests_step id ids g
      ∙ ap (λ m. m >>= λ b. grade_tests results ids (file_test id b g)) h
      ∙ grade_tests_complete ids (file_test id b g) hs
      ∙ ap ok (filed_step id ids g b h)

  grade_tests_sound :
      (ids : List Identifier) (g g' : GradeResult)
      → grade_tests results ids g ≡ ok g'
      → HaveVerdicts ids
  grade_tests_sound [] g g' h = tt
  grade_tests_sound (id ∷ ids) g g' h =
      let (b, found, rest) =
        >>=-eq-ok (verdict id) (λ b. grade_tests results ids (file_test id b g))
          (sym (grade_tests_step id ids g) ∙ h) in
      ((b, found), grade_tests_sound ids (file_test id b g) g' rest)

  grade_chain_complete :
      (g : Grade) (out : List GradeResult)
      → IsGradable g
      → grade_chain results true g out ≡ ok (out ++ graded g)
  unfolding grade_chain new_grade_result
  grade_chain_complete no_grade out h = rw append-nil
  grade_chain_complete (grade n tests next) out (h, hs) =
      rw (grade_tests_complete tests (new_grade_result n) h) (
        grade_chain_complete next (out ++ with_propose true (filed tests (new_grade_result n)) ∷ [])
          hs
        ∙ ap ok (
            append_assoc out (with_propose true (filed tests (new_grade_result n)) ∷ [])
              (graded next)
            ∙ ap (λ g. out ++ g ∷ graded next)
                (with_propose_lem n (passing tests) (failing tests))))

  grade_chain_sound :
      (g : Grade) (out final : List GradeResult)
      → grade_chain results true g out ≡ ok final
      → IsGradable g
  unfolding grade_chain
  grade_chain_sound no_grade out final h = tt
  grade_chain_sound (grade n tests next) out final h =
      let (g, found, rest) =
        >>=-eq-ok (grade_tests results tests (new_grade_result n))
          (λ g. grade_chain results true next (out ++ with_propose true g ∷ [])) h in
      (
        grade_tests_sound tests (new_grade_result n) g found,
        grade_chain_sound next (out ++ with_propose true g ∷ []) final rest,
      )

  -- Grading succeeds exactly when every required test of every grade has well-formed results or
  -- none, and then each grade's tests are split by their verdicts, in order, and a grade is
  -- proposed exactly if none of its own tests failed.
  pub do_grading_iff :
      (p : Policy) (out : List GradeResult)
      → (do_grading p results ≡ ok out)
        ↔ (IsGradable (first_grade p) × (out ≡ graded (first_grade p)))
  unfolding do_grading
  do_grading_iff p out = (there, back)
    where
      there :
          grade_chain results true (first_grade p) [] ≡ ok out
          → IsGradable (first_grade p) × (out ≡ graded (first_grade p))
      there h =
          let gradable = grade_chain_sound (first_grade p) [] out h in
          (gradable, cc (h, grade_chain_complete (first_grade p) [] gradable))

      back :
          IsGradable (first_grade p) × (out ≡ graded (first_grade p))
          → grade_chain results true (first_grade p) [] ≡ ok out
      back (gradable, e) = grade_chain_complete (first_grade p) [] gradable ∙ ap ok (sym e)

  split-perm : (ids : List Identifier) → Perm (passing ids ++ failing ids) ids
  split-perm [] = Perm.refl []
  split-perm (id ∷ ids) = elim (Bool-cases (is_pass (verdict id))) [
    | inl passed ↦ rw passed (Perm.cons id (split-perm ids))
    | inr failed ↦
        rw failed
          (Perm.trans (perm_middle (passing ids) (failing ids)) (Perm.cons id (split-perm ids)))
  ]

  -- One result for each grade in order, with the grade's name, whose `Pass` and `Fail` together are
  -- the required tests, each as often as the policy has it.
  abbrev pub AccountsFor : Grade → List GradeResult → Type 0
  AccountsFor no_grade [] = Unit
  AccountsFor no_grade (r ∷ rs) = ⊥
  AccountsFor (grade n tests next) [] = ⊥
  AccountsFor (grade n tests next) (r ∷ rs) =
      (r.name ≡ n) × Perm (r.pass ++ r.fail) tests × AccountsFor next rs

  graded-AccountsFor : (g : Grade) → AccountsFor g (graded g)
  graded-AccountsFor no_grade = tt
  graded-AccountsFor (grade n tests next) = (refl, split-perm tests, graded-AccountsFor next)

  -- A successful grading has one result for each grade in order, with the grade's name, and each
  -- lists its grade's required tests and nothing else: `Pass` and `Fail` together are the required
  -- tests, each as often as the policy has it.
  pub do_grading-AccountsFor :
      (p : Policy) (out : List GradeResult)
      → do_grading p results ≡ ok out
      → AccountsFor (first_grade p) out
  do_grading-AccountsFor p out h =
      rw ((do_grading_iff p out).0 h).1 (graded-AccountsFor (first_grade p))

  -- A grade whose base grade is not proposed, because a test of the base failed, is proposed all
  -- the same if its own tests pass.
  pub propose_after_failed_base :
      (base_name n : Bytes) (base_tests tests : List Identifier) (next : Grade)
      (out : List GradeResult)
      → do_grading
          (record {
            grade_name = base_name;
            required_passing_tests = base_tests;
            next_grade = grade n tests next;
          })
          results
        ≡ ok out
      → failing base_tests ≢ []
      → failing tests ≡ []
      → (base r : GradeResult) × (rest : List GradeResult) × (out ≡ base ∷ r ∷ rest)
        × (base.propose ≡ false)
        × (r.propose ≡ true)
  propose_after_failed_base base_name n base_tests tests next out h bad good = (
    graded_one base_name base_tests,
    graded_one n tests,
    graded next,
    ((do_grading_iff _ out).0 h).1,
    is_empty-false (failing base_tests) bad,
    ap is_empty good,
  )
