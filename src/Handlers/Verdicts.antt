-- ===== src/Handlers/Verdicts.antt =====
-- The verdicts of the configured tests of pods and operators.
use test_network_function.Prelude.{
  ◌≡◌, ◌↔◌, ◌⊎◌, Bytes, codes, str_eq, str_eq_iff, List, [], ◌∷◌, true, false, ok, arith,
}
use test_network_function.Tnf.{error, success}
use test_network_function.Generic.{Regexp}
use test_network_function.Handlers.Subjects.{
  Subject, contains_status, statuses_pass, match_string, null_false, array_result, subject_match,
}

-- The status is one of the list.
abbrev pub IsExpected : Bytes → List Bytes → Type 0
IsExpected s [] = ⊥
IsExpected s (a ∷ arr) = (a ≡ s) ⊎ IsExpected s arr

abbrev pub AllExpected : List Bytes → List Bytes → Type 0
AllExpected [] expected = Unit
AllExpected (s ∷ statuses) expected = IsExpected s expected × AllExpected statuses expected

abbrev pub NoneExpected : List Bytes → List Bytes → Type 0
NoneExpected [] expected = Unit
NoneExpected (s ∷ statuses) expected = (IsExpected s expected → ⊥) × NoneExpected statuses expected

contains_status_iff :
    (arr : List Bytes) (s : Bytes) → (contains_status arr s ≡ true) ↔ IsExpected s arr
unfolding contains_status
contains_status_iff [] s = ground arith
contains_status_iff (a ∷ arr) s = ground (arith, str_eq_iff a s, contains_status_iff arr s)

allow_iff :
    (expected statuses : List Bytes)
    → (statuses_pass (codes "allow") expected statuses ≡ true) ↔ AllExpected statuses expected
unfolding statuses_pass str_eq
allow_iff expected [] = ground arith
allow_iff expected (s ∷ statuses) =
    ground (arith, contains_status_iff expected s, allow_iff expected statuses)

deny_iff :
    (expected statuses : List Bytes)
    → (statuses_pass (codes "deny") expected statuses ≡ true) ↔ NoneExpected statuses expected
unfolding statuses_pass str_eq
deny_iff expected [] = ground arith
deny_iff expected (s ∷ statuses) =
    ground (arith, contains_status_iff expected s, deny_iff expected statuses)

module _ (statuses_of : Bytes → List Bytes) (re : Regexp) (pattern before m : Bytes)
    (p : Subject) where
  array_verdict :
      p.result ≡ error
      → p.result_type ≡ codes "array"
      → re.compiles null_false ≡ true
      → match_string re null_false m ≡ false
      → (p' : Subject) × (subject_match statuses_of re pattern before m p ≡ ok p')
        × ((p'.result ≡ success) ↔ (statuses_pass p.action p.expect_status (statuses_of m) ≡ true))
  unfolding subject_match array_result
  array_verdict new array compiles no_match = (
    array_result (record p { facts = m }) (statuses_of m),
    ground (arith, str_eq_iff p.result_type (codes "array")),
    ground arith,
  )

  -- For a new handler whose action is `allow` and whose result is an array that is neither null nor
  -- false, the test succeeds exactly if every status of the array is one of the expected ones.
  pub subject_match-allow :
      p.result ≡ error
      → p.result_type ≡ codes "array"
      → re.compiles null_false ≡ true
      → match_string re null_false m ≡ false
      → p.action ≡ codes "allow"
      → (p' : Subject) × (subject_match statuses_of re pattern before m p ≡ ok p')
        × ((p'.result ≡ success) ↔ AllExpected (statuses_of m) p.expect_status)
  subject_match-allow new array compiles no_match action =
      let (p', e, (there, back)) = array_verdict new array compiles no_match in
      let (sound, complete) = allow_iff p.expect_status (statuses_of m) in
      (p', e, (λ h. sound (rw action at (there h)), λ h. back (rw action (complete h))))

  -- For a new handler whose action is `deny` and whose result is an array that is neither null nor
  -- false, the test succeeds exactly if no status of the array is one of those listed.
  pub subject_match-deny :
      p.result ≡ error
      → p.result_type ≡ codes "array"
      → re.compiles null_false ≡ true
      → match_string re null_false m ≡ false
      → p.action ≡ codes "deny"
      → (p' : Subject) × (subject_match statuses_of re pattern before m p ≡ ok p')
        × ((p'.result ≡ success) ↔ NoneExpected (statuses_of m) p.expect_status)
  subject_match-deny new array compiles no_match action =
      let (p', e, (there, back)) = array_verdict new array compiles no_match in
      let (sound, complete) = deny_iff p.expect_status (statuses_of m) in
      (p', e, (λ h. sound (rw action at (there h)), λ h. back (rw action (complete h))))
