-- ===== src/Handlers/Ping.antt =====
-- pkg/tnf/handlers/ping/ping.go. The two counts are decimal digits, so neither is negative and
-- their difference is an int64 as it stands.
use test_network_function.Prelude.{
  ℕ, zero, suc, ◌≡◌, ◌≢◌, ◌↔◌, refl, Bytes, codes, List, [], ◌∷◌, Bool, true, false, ◌&&◌, ◌||◌,
  Result, ok, ◌>>=◌, Panic, arith, if◌then◌else◌,
}
use test_network_function.Prelude.Int.{ℤ, pos, eq_ℤ, ltb_ℤ, leb_ℤ, ◌-ℤ◌, ◌≤ℤ◌, eq_ℤ_iff}
use test_network_function.Strings.{atoi, format_nat}
use test_network_function.Reel.{Step, Handler}
use test_network_function.Tnf.{error, success, failure}
use test_network_function.Generic.{Regexp}
use test_network_function.Handlers.{at, single_shot}

pub record Ping : Type 0 where
  pub result : ℤ
  pub timeout : ℕ
  pub args : List Bytes
  pub transmitted : ℤ
  pub received : ℤ
  pub errors : ℤ

abbrev pub connect_invalid_argument_regex : Bytes
connect_invalid_argument_regex = codes "(?m)connect: Invalid argument$"

abbrev pub successful_output_regex : Bytes
successful_output_regex =
    codes "(?m)(\\d+) packets transmitted, (\\d+)( packets){0,1} received, (?:\\+(\\d+) errors)?.*$"

-- `Command`; `count` is positive, or 0 for every other value.
unfoldable pub ping_command : Bytes → ℕ → List Bytes
ping_command host zero = codes "ping" ∷ host ∷ []
ping_command host (suc n) = codes "ping" ∷ codes "-c" ∷ format_nat (suc n) ∷ host ∷ []

unfoldable pub new_ping : ℕ → Bytes → ℕ → Ping
unfolding ping_command
new_ping timeout host count = record {
  result = error;
  timeout = timeout;
  args = ping_command host count;
  transmitted = pos 0;
  received = pos 0;
  errors = pos 0;
}

unfoldable pub ping_first : Ping → Step
ping_first p = record {
  execute = [];
  expect = connect_invalid_argument_regex ∷ successful_output_regex ∷ [];
  timeout = p.timeout;
}

-- The `switch` over the counts.
unfoldable pub ping_result : ℤ → ℤ → ℤ → ℤ
ping_result transmitted received errors =
    if eq_ℤ transmitted (pos 0) || ltb_ℤ (pos 0) errors
    then error
    else if ltb_ℤ (pos 0) received && leb_ℤ (transmitted -ℤ received) (pos 1)
    then success
    else failure

-- The part of `ReelMatch` behind a match of the statistics.
unfoldable pub read_statistics : List Bytes → Ping → Result Panic Ping
unfolding at ping_result
read_statistics matched p = do
  t ← at matched 1
  r ← at matched 2
  e ← at matched 4
  ok (record p {
    transmitted = (atoi t).0;
    received = (atoi r).0;
    errors = (atoi e).0;
    result = ping_result (atoi t).0 (atoi r).0 (atoi e).0;
  })

abbrev no_match : List Bytes → Bool
no_match [] = true
no_match (g ∷ gs) = false

unfoldable pub ping_match : Regexp → Bytes → Bytes → Bytes → Ping → Result Panic Ping
unfolding read_statistics
ping_match re pattern before m p =
    let seen =
      if no_match (re.find_string_submatch connect_invalid_argument_regex m)
      then p
      else record p { result = error } in
    let matched = re.find_string_submatch successful_output_regex m in
    if no_match matched then ok seen else read_statistics matched seen

unfoldable pub ping_handler : Regexp → Handler Ping
unfolding ping_match single_shot ping_first
ping_handler re = single_shot ping_first (ping_match re)

-- The value of a group of the match; a group that took no part is the empty text and counts 0.
abbrev pub count_of : Bytes → ℤ
count_of digits = (atoi digits).0

-- When `ping` printed its statistics, `ReelMatch` records the three counts, and the result is
-- SUCCESS exactly if requests were sent, no errors were reported, a response was received, and at
-- most one response is missing.
pub ping_match_iff :
    (re : Regexp) (p : Ping) (pattern before m all t r packets e : Bytes) (more : List Bytes)
    → re.find_string_submatch successful_output_regex m ≡ all ∷ t ∷ r ∷ packets ∷ e ∷ more
    → (p' : Ping) × (ping_match re pattern before m p ≡ ok p')
      × (p'.transmitted ≡ count_of t)
      × (p'.received ≡ count_of r)
      × (p'.errors ≡ count_of e)
      × ((p'.result ≡ success) ↔ (
          (count_of t ≢ pos 0)
          × (count_of e ≤ℤ pos 0)
          × (pos 1 ≤ℤ count_of r)
          × (count_of t -ℤ count_of r ≤ℤ pos 1)))
unfolding ping_match read_statistics at ping_result
ping_match_iff re p pattern before m all t r packets e more found = (
  record (if no_match (re.find_string_submatch connect_invalid_argument_regex m)
      then p
      else record p { result = error }) {
        transmitted = count_of t;
        received = count_of r;
        errors = count_of e;
        result = ping_result (count_of t) (count_of r) (count_of e);
      },
  rw found,
  refl,
  refl,
  refl,
  ground (arith, eq_ℤ_iff (count_of t) (pos 0)),
)
