-- ===== src/Handlers/NodeHugepages.antt =====
-- pkg/tnf/handlers/nodehugepages/nodehugepages.go: whether a node has the cluster's huge pages.
use test_network_function.Prelude.{
  ℕ, ◌-◌, ◌≡◌, ◌≢◌, ◌⊎◌, inl, inr, refl, Bytes, codes, str_eq, List, [], ◌∷◌, length, take, Bool,
  false, Bool-cases, not, Result, ok, ◌>>=◌, Panic, arith, if◌then◌else◌, ◌==◌,
}
use test_network_function.Prelude.Int.{ℤ, eq_ℤ, eq_ℤ_iff}
use test_network_function.Strings.{split, fields, trim, atoi}
use test_network_function.Reel.{newline, Step, Handler}
use test_network_function.Tnf.{error, success, failure}
use test_network_function.Handlers.{at, single_shot}

pub record NodeHugepages : Type 0 where
  pub hugepagesz : ℤ
  pub hugepages : ℤ
  pub result : ℤ
  pub timeout : ℕ
  pub args : List Bytes

unfoldable pub new_node_hugepages : ℕ → ℤ → ℤ → NodeHugepages
new_node_hugepages timeout hugepagesz hugepages = record {
  hugepagesz = hugepagesz;
  hugepages = hugepages;
  result = error;
  timeout = timeout;
  args = codes "grep -E 'HugePages_Total:|Hugepagesize:' /proc/meminfo" ∷ [];
}

unfoldable pub node_hugepages_first : NodeHugepages → Step
node_hugepages_first nh = record {
  execute = [];
  expect = codes "(?s).+" ∷ [];
  timeout = nh.timeout;
}

unfoldable pub validate_parameter : NodeHugepages → Bytes → Bytes → Bool
validate_parameter nh name value =
    if str_eq name (codes "HugePages_Total")
    then eq_ℤ (atoi value).0 nh.hugepages
    else if str_eq name (codes "Hugepagesize")
    then eq_ℤ (atoi value).0 nh.hugepagesz
    else false

-- `fields[0][:len(fields[0])-1]`, of a word that is not empty
abbrev pub but_last : Bytes → Bytes
but_last word = take (length word - 1) word

-- The body of the loop, up to the test: whether the parameter of a line has its value.
unfoldable pub validate_line : NodeHugepages → Bytes → Result Panic Bool
unfolding validate_parameter at
validate_line nh line = do
  name ← at (fields line) 0
  value ← at (fields line) 1
  ok (validate_parameter nh (but_last name) value)

unfoldable pub validate_lines : NodeHugepages → List Bytes → Result Panic NodeHugepages
unfolding validate_line
validate_lines nh [] = ok nh
validate_lines nh (line ∷ lines) = do
  valid ← validate_line nh line
  validate_lines (if valid then nh else record nh { result = failure }) lines

unfoldable pub node_hugepages_match :
    Bytes → Bytes → Bytes → NodeHugepages → Result Panic NodeHugepages
unfolding validate_lines
node_hugepages_match pattern before m nh =
    let lines = split (trim newline m) (newline ∷ []) in
    if not (length lines == 2) then ok nh else do
      nh' ← validate_lines nh lines
      ok (if eq_ℤ nh'.result failure then nh' else record nh' { result = success })

unfoldable pub node_hugepages_handler : Handler NodeHugepages
unfolding node_hugepages_match node_hugepages_first single_shot
node_hugepages_handler = single_shot node_hugepages_first node_hugepages_match

-- A line of the meminfo file: its name, with the colon behind it, and its value.
abbrev pub HasParameter : Bytes → Bytes → Bytes → Type 0
HasParameter line name value = (unit : List Bytes) × (fields line ≡ name ∷ value ∷ unit)

-- With the two lines that the command prints, in their order, a new handler's result is SUCCESS if
-- both numbers are the cluster's, and FAILURE if one of them is not.
pub node_hugepages_match_lem :
    (nh : NodeHugepages) (pattern before m total size total_value size_value : Bytes)
    → nh.result ≡ error
    → split (trim newline m) (newline ∷ []) ≡ total ∷ size ∷ []
    → HasParameter total (codes "HugePages_Total:") total_value
    → HasParameter size (codes "Hugepagesize:") size_value
    → (nh' : NodeHugepages) × (node_hugepages_match pattern before m nh ≡ ok nh')
      × (((nh'.result ≡ success)
            × ((atoi total_value).0 ≡ nh.hugepages)
            × ((atoi size_value).0 ≡ nh.hugepagesz))
          ⊎ ((nh'.result ≡ failure)
              × (((atoi total_value).0 ≢ nh.hugepages) ⊎ ((atoi size_value).0 ≢ nh.hugepagesz))))
unfolding node_hugepages_match validate_lines validate_line validate_parameter at str_eq
node_hugepages_match_lem nh pattern before m total size tv sv new lines (u, ht) (w, hs) =
    elim (Bool-cases (eq_ℤ (atoi tv).0 nh.hugepages)) [
      | inl a ↦ elim (Bool-cases (eq_ℤ (atoi sv).0 nh.hugepagesz)) [
        | inl b ↦ (
          record nh { result = success },
          rw (lines, ht, hs, a, b, new),
          inl (
            refl,
            (eq_ℤ_iff (atoi tv).0 nh.hugepages).0 a,
            (eq_ℤ_iff (atoi sv).0 nh.hugepagesz).0 b,
          ),
        )
        | inr b ↦ (
          record nh { result = failure },
          rw (lines, ht, hs, a, b),
          inr (refl, inr (ground (arith, eq_ℤ_iff (atoi sv).0 nh.hugepagesz))),
        )
      ]
      | inr a ↦ (
        record nh { result = failure },
        elim (Bool-cases (eq_ℤ (atoi sv).0 nh.hugepagesz)) [
          | inl b ↦ rw (lines, ht, hs, a, b)
          | inr b ↦ rw (lines, ht, hs, a, b)
        ],
        inr (refl, inl (ground (arith, eq_ℤ_iff (atoi tv).0 nh.hugepages))),
      )
    ]
