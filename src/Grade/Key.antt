-- ===== src/Grade/Key.antt =====
-- `generateTestResultsKey` tells identifiers apart.
use test_network_function.Prelude.{
  drop, ℕ, ◌+◌, ◌-◌, ◌*◌, ◌/◌, ◌%◌, ◌<◌, ◌≡◌, refl, ap, Bytes, [], ◌∷◌, ◌++◌, append_assoc, Option,
  none, some, arith, drop, if◌then◌else◌, ◌==◌, ltb,
}
use test_network_function.Grade.{
  Identifier, hex_digit, quote_byte, quote_body, generate_test_results_key,
}

unhex : ℕ → ℕ
unhex h = if ltb h 58 then h - 48 else h - 87

unhex-hex_digit : (d : ℕ) → d < 16 → unhex (hex_digit d) ≡ d
unfolding unhex hex_digit
unhex-hex_digit d h = ground arith

read_hex : Bytes → Option (ℕ × Bytes)
unfolding unhex
read_hex (h ∷ l ∷ rest) = some (unhex h * 16 + unhex l, rest)
read_hex _ = none

-- What an escape letter stands for; `x` takes two digits, `u` four, the first
-- two of which are zeros.
read_escape : Bytes → Option (ℕ × Bytes)
read_escape [] = none
read_escape (e ∷ rest) =
    if e == b'"'
    then some (34, rest)
    else if e == b'\\'
    then some (92, rest)
    else if e == b'a'
    then some (7, rest)
    else if e == b'b'
    then some (8, rest)
    else if e == b'f'
    then some (12, rest)
    else if e == b'n'
    then some (10, rest)
    else if e == b'r'
    then some (13, rest)
    else if e == b't'
    then some (9, rest)
    else if e == b'v'
    then some (11, rest)
    else if e == b'u'
    then read_hex (drop 2 rest)
    else read_hex rest

-- The next character of a quoted text; `none` at the closing quote.
read_char : Bytes → Option (ℕ × Bytes)
unfolding read_escape
read_char [] = none
read_char (c ∷ rest) =
    if c == b'"' then none else if c == b'\\' then read_escape rest else some (c, rest)

read_hex-hex_digit :
    (c : ℕ) (r : Bytes)
    → c < 256
    → read_hex (hex_digit (c / 16) ∷ hex_digit (c % 16) ∷ r) ≡ some (c, r)
unfolding read_hex hex_digit
read_hex-hex_digit c r h = ground arith

read_char-quote_byte : (c : ℕ) (r : Bytes) → read_char (quote_byte c ++ r) ≡ some (c, r)
unfolding read_char quote_byte
read_char-quote_byte c r = ground (arith, read_hex-hex_digit c r, read_hex-hex_digit 127 r)

read_char-quote_body :
    (c : ℕ) (s r : Bytes) → read_char (quote_body (c ∷ s) ++ r) ≡ some (c, quote_body s ++ r)
unfolding quote_body
read_char-quote_body c s r = rw append_assoc (read_char-quote_byte c (quote_body s ++ r))

read_char_close : (r : Bytes) → read_char (quote_body [] ++ b'"' ∷ r) ≡ none
unfolding read_char quote_body
read_char_close r = refl

-- A closed quoted text is read back with what follows it.
quote_body-injective :
    (s t r q : Bytes) → quote_body s ++ b'"' ∷ r ≡ quote_body t ++ b'"' ∷ q → (s ≡ t) × (r ≡ q)
quote_body-injective [] [] r q h = unfold quote_body in ground arith
quote_body-injective [] (d ∷ t) r q h =
    cc (ap read_char h, read_char_close r, read_char-quote_body d t (b'"' ∷ q))
quote_body-injective (c ∷ s) [] r q h =
    cc (ap read_char h, read_char_close q, read_char-quote_body c s (b'"' ∷ r))
quote_body-injective (c ∷ s) (d ∷ t) r q h = ground (
  arith,
  ap read_char h,
  read_char-quote_body c s (b'"' ∷ r),
  read_char-quote_body d t (b'"' ∷ q),
  quote_body-injective s t r q,
)

-- Two identifiers with one key in the results map are the same identifier, so that the result of
-- one test is never read for another.
pub generate_test_results_key-injective :
    (a b : Identifier) → generate_test_results_key a ≡ generate_test_results_key b → a ≡ b
unfolding generate_test_results_key
generate_test_results_key-injective a b h =
    let (same_url, rest) = quote_body-injective a.url b.url _ _ (ap (drop 8) h) in
    let (same_version, _) =
      quote_body-injective a.semantic_version b.semantic_version _ _ (ap (drop 12) rest) in
    λ i. record { url = same_url i; semantic_version = same_version i }
