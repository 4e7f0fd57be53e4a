-- ===== src/Reel/Prompt.antt =====
-- The emulated prompt: what the wrapped command makes the shell print, and how it is read back.
use test_network_function.Prelude.{
  ℕ, zero, suc, ◌≤◌, ◌<◌, ◌≡◌, refl, ap, ◌∙◌, Bytes, codes, has_prefix, [], ◌∷◌, ◌++◌, drop, Bool,
  true, false, ◌&&◌, ok, arith, if◌then◌else◌,
}
use native.Mathlib.Decide.{ℕ_discrete}
use test_network_function.Prelude.Int.{ℤ, pos}
use test_network_function.Strings.{split, contains, trim_right, atoi}
use test_network_function.Strings.Splitting.{IsUnbordered, split-append, split_only}
use test_network_function.Reel.{
  newline, end_of_test_sentinel, exit_keyword, Reel, parse_status,
  strip_emulated_prompt_from_output,
}

-- What the regular expression `[0-9]+` matches.
abbrev pub AllDigits : Bytes → Type 0
AllDigits [] = Unit
AllDigits (c ∷ s) = (b'0' ≤ c) × (c ≤ b'9') × AllDigits s

-- What the shell prints behind a command's output: the echo of the wrapped command.
abbrev pub prompt : Bytes → Bytes
prompt digits = end_of_test_sentinel ++ (codes " " ++ (exit_keyword ++ (digits ++ newline ∷ [])))

-- Every border of a text, checked by evaluation.
borderless : ℕ → Bytes → Bool
borderless zero sep = true
borderless (suc k) sep =
    (if has_prefix (drop (suc k) sep) sep then false else true) && borderless k sep

borderless_sound :
    (n : ℕ) (sep : Bytes) (k : ℕ)
    → borderless n sep ≡ true
    → 0 < k
    → k ≤ n
    → has_prefix (drop k sep) sep ≡ false
unfolding borderless
borderless_sound zero sep k h p q = absurd (omega arith)
borderless_sound (suc n) sep k h p q = elim (ℕ_discrete k (suc n)) [
  | yes e ↦ rw e (ground arith)
  | no ne ↦ borderless_sound n sep k (ground arith) p (omega arith)
]

sentinel-IsUnbordered : IsUnbordered end_of_test_sentinel
unfolding borderless has_prefix
sentinel-IsUnbordered k p q = borderless_sound 19 end_of_test_sentinel k refl p (omega arith)

exit_keyword-IsUnbordered : IsUnbordered exit_keyword
unfolding borderless has_prefix
exit_keyword-IsUnbordered k p q = borderless_sound 4 exit_keyword k refl p (omega arith)

newline-IsUnbordered : IsUnbordered (newline ∷ [])
newline-IsUnbordered k p q = absurd (omega arith)

-- A text that begins with no digit does not occur in digits, nor in digits and a newline.
contains-digits :
    (d : ℕ) (p ds : Bytes) → b'9' < d → AllDigits ds → contains (d ∷ p) (ds ++ newline ∷ []) ≡ false
unfolding contains has_prefix
contains-digits d p [] h all = ground arith
contains-digits d p (c ∷ ds) h (lo, hi, all) = ground (arith, contains-digits d p ds h all)

newline-digits : (ds : Bytes) → AllDigits ds → contains (newline ∷ []) ds ≡ false
unfolding contains has_prefix
newline-digits [] all = refl
newline-digits (c ∷ ds) (lo, hi, all) = ground (arith, newline-digits ds all)

sentinel-tail :
    (ds : Bytes)
    → AllDigits ds
    → contains end_of_test_sentinel (codes " exit=" ++ (ds ++ newline ∷ [])) ≡ false
unfolding contains has_prefix
sentinel-tail ds all = contains-digits b'E' (codes "ND_OF_TEST_SENTINEL") ds (omega arith) all

-- The status that a run of digits stands for: 1 beyond the range of int64.
abbrev pub status_of : Bytes → ℤ
status_of ds = if (atoi ds).1 then (atoi ds).0 else pos 1

space_only : contains exit_keyword (codes " ") ≡ false
unfolding contains has_prefix
space_only = refl

exit_keyword-line : (ds : Bytes) → AllDigits ds → contains exit_keyword (ds ++ newline ∷ []) ≡ false
exit_keyword-line ds all = contains-digits b'e' (codes "xit=") ds (omega arith) all

split-status :
    (ds : Bytes)
    → AllDigits ds
    → split (codes " exit=" ++ (ds ++ newline ∷ [])) exit_keyword
      ≡ codes " " ∷ (ds ++ newline ∷ []) ∷ []
split-status ds all =
    split-append b'e' (codes "xit=") (codes " ") (ds ++ newline ∷ []) exit_keyword-IsUnbordered
      space_only
    ∙ ap (λ v. codes " " ∷ v)
        (split_only exit_keyword (ds ++ newline ∷ []) (exit_keyword-line ds all))

split-line :
    (ds : Bytes)
    → AllDigits ds
    → split (ds ++ newline ∷ []) (newline ∷ []) ≡ ds ∷ split [] (newline ∷ [])
split-line ds all = split-append newline [] ds [] newline-IsUnbordered (newline-digits ds all)

parse_status-digits :
    (ds : Bytes)
    → AllDigits ds
    → parse_status (codes " exit=" ++ (ds ++ newline ∷ [])) ≡ ok (status_of ds)
unfolding parse_status
parse_status-digits ds all = rw (split-status ds all) (rw (split-line ds all))

split-output :
    (out ds : Bytes)
    → contains end_of_test_sentinel out ≡ false
    → AllDigits ds
    → split (out ++ prompt ds) end_of_test_sentinel
      ≡ out ∷ (codes " exit=" ++ (ds ++ newline ∷ [])) ∷ []
split-output out ds clean all =
    split-append b'E' (codes "ND_OF_TEST_SENTINEL") out (codes " exit=" ++ (ds ++ newline ∷ []))
      sentinel-IsUnbordered clean
    ∙ ap (λ v. out ∷ v) (split_only end_of_test_sentinel _ (sentinel-tail ds all))

-- With the prompt emulated, whatever a command printed is read back from the session without its
-- trailing newlines, and beside it the exit status that the digits behind the sentinel spell,
-- provided that the sentinel is not part of the command's own output.
pub strip_emulated_prompt_from_output-prompt :
    (r : Reel) (out ds : Bytes)
    → r.disable_terminal_prompt_emulation ≡ false
    → contains end_of_test_sentinel out ≡ false
    → AllDigits ds
    → strip_emulated_prompt_from_output r (out ++ prompt ds)
      ≡ ok (trim_right newline out, status_of ds)
unfolding strip_emulated_prompt_from_output
strip_emulated_prompt_from_output-prompt r out ds on clean all =
    rw (on, split-output out ds clean all) (rw (parse_status-digits ds all))
