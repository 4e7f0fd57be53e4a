-- ===== src/Platform/Settings.antt =====
-- test-network-function/platform/suite.go: what `testSysctlConfigs` compares, and pkg/utils/utils.go:
-- what `ArgListToMap` keeps of an argument list.
use test_network_function.Prelude.{
  ◌≡◌, inl, inr, refl, Bytes, codes, bytes_eq, str_eq, has_prefix, Map, lookup, insert, List, [],
  ◌∷◌, true, Bool-cases, none, ok, ◌⊎◌,
}
use test_network_function.Strings.{split}
use test_network_function.Generic.{Regexp}
use test_network_function.Handlers.{at}
use test_network_function.Platform.Boot.{
  sysctl_regex, add_setting, add_settings, parse_sysctl_system_output, values_agree,
  sysctl_configs_agree, AllSpaced, insert-AllSpaced,
}

values_agree-AllSpaced :
    (m others : Map Bytes Bytes)
    → AllSpaced m
    → ((name : Bytes) → lookup (b' ' ∷ name) others ≡ none)
    → values_agree m others ≡ true
unfolding values_agree
values_agree-AllSpaced [] others spaced plain = refl
values_agree-AllSpaced ((key, val) ∷ m) others ((name, e), spaced) plain =
    rw e (rw (values_agree, plain name) (values_agree-AllSpaced m others spaced plain))

-- The regular expression finds nothing, or five groups of which the second begins with a space.
module _ (re : Regexp)
    (groups : (line : Bytes)
      → (re.find_string_submatch sysctl_regex line ≡ [])
        ⊎ ((whole name before after val : Bytes) × (re.find_string_submatch sysctl_regex line
              ≡ whole ∷ (b' ' ∷ name) ∷ before ∷ after ∷ val ∷ []))) where
  add_setting-AllSpaced :
      (line : Bytes) (m : Map Bytes Bytes)
      → AllSpaced m
      → (m' : Map Bytes Bytes) × (add_setting re line m ≡ ok m') × AllSpaced m'
  unfolding add_setting at
  add_setting-AllSpaced line m spaced = elim (Bool-cases (str_eq line [])) [
    | inl empty ↦ (m, rw empty refl, spaced)
    | inr full ↦ elim (Bool-cases (has_prefix (codes "*") line)) [
      | inl starred ↦ (m, rw (full, starred) refl, spaced)
      | inr plain ↦ elim (groups line) [
        | inl nothing ↦ (m, rw (full, plain, nothing) refl, spaced)
        | inr (whole, name, before, after, val, found) ↦ (
          insert (b' ' ∷ name) val m,
          rw (full, plain, found) refl,
          insert-AllSpaced (b' ' ∷ name) val m (name, refl) spaced,
        )
      ]
    ]
  ]

  add_settings-AllSpaced :
      (lines : List Bytes) (m : Map Bytes Bytes)
      → AllSpaced m
      → (m' : Map Bytes Bytes) × (add_settings re lines m ≡ ok m') × AllSpaced m'
  unfolding add_settings
  add_settings-AllSpaced [] m spaced = (m, refl, spaced)
  add_settings-AllSpaced (line ∷ lines) m spaced =
      let (m', e, spaced') = add_setting-AllSpaced line m spaced in
      let (out, e', spaced'') = add_settings-AllSpaced lines m' spaced' in (out, rw e e', spaced'')

  -- When no argument of the machine config has a name that begins with a space, the comparison of
  -- the sysctl settings with the machine config succeeds whatever sysctl printed.
  pub sysctl_configs_agree-plain :
      (out : Bytes) (mc : Map Bytes Bytes)
      → ((name : Bytes) → lookup (b' ' ∷ name) mc ≡ none)
      → sysctl_configs_agree re out mc ≡ ok true
  unfolding sysctl_configs_agree parse_sysctl_system_output
  sysctl_configs_agree-plain out mc plain =
      let (m, e, spaced) = add_settings-AllSpaced (split out (codes "\n")) [] tt in
      rw (e, values_agree-AllSpaced m mc spaced plain) refl
