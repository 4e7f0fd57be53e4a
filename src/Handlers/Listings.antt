-- ===== src/Handlers/Listings.antt =====
-- pkg/tnf/handlers/nodenames/nodenames.go, pkg/tnf/handlers/nodeport/nodeport.go,
-- pkg/tnf/handlers/graceperiod/graceperiod.go and pkg/tnf/handlers/nodeselector/nodeselector.go: handlers that
-- read the lines or the number which a command prints.
use test_network_function.Prelude.{
  ℕ, ◌≡◌, ◌↔◌, Bytes, codes, Map, List, [], ◌∷◌, ◌++◌, length, take, Bool, true, false, Option,
  none, some, Result, ok, err, Panic, List-cases, inl, inr, refl, sym, slice_bounds_out_of_range,
}
use test_network_function.Prelude.Int.{ℤ}
use test_network_function.Strings.{split, split_from, trim, atoi}
use test_network_function.Reel.{Step, Handler, newline}
use test_network_function.Tnf.{error, success, failure}
use test_network_function.Generic.{Regexp}
use test_network_function.Handlers.{single_shot}

abbrev pub any_text : Bytes
any_text = codes "(?s).+"

pub record NodeNames : Type 0 where
  pub node_names : List Bytes
  pub result : ℤ
  pub timeout : ℕ
  pub args : List Bytes

-- The loop of `NewNodeNames`; a label without a value is `none`.
unfoldable pub labels_string : Map Bytes (Option Bytes) → Bytes → Bytes
labels_string [] read = read
labels_string ((name, none) ∷ labels) read = labels_string labels (read ++ name ++ codes ",")
labels_string ((name, some val) ∷ labels) read =
    labels_string labels (read ++ name ++ codes "=" ++ val ++ codes ",")

abbrev pub selected : Bytes → List Bytes
selected [] = []
selected (c ∷ s) = codes "-l" ∷ take (length s) (c ∷ s) ∷ []

unfoldable pub new_node_names : ℕ → Map Bytes (Option Bytes) → NodeNames
unfolding labels_string
new_node_names timeout labels = record {
  node_names = [];
  result = error;
  timeout = timeout;
  args =
      (codes "oc"
        ∷ codes "get"
        ∷ codes "nodes"
        ∷ codes "-o"
        ∷ codes "custom-columns=NAME:.metadata.name"
        ∷ [])
      ++ selected (labels_string labels []);
}

unfoldable pub node_names_first : NodeNames → Step
node_names_first nn = record { execute = []; expect = any_text ∷ []; timeout = nn.timeout }

-- `lines[1:]`
abbrev pub below_header : List Bytes → Result Panic (List Bytes)
below_header [] = err slice_bounds_out_of_range
below_header (header ∷ lines) = ok lines

abbrev pub with_names : NodeNames → List Bytes → NodeNames
with_names nn [] = record nn { node_names = []; result = failure }
with_names nn (name ∷ names) = record nn { node_names = name ∷ names; result = success }

unfoldable pub node_names_match : Bytes → Bytes → Bytes → NodeNames → Result Panic NodeNames
node_names_match pattern before m nn = elim (below_header (split (trim newline m) (codes "\n"))) [
  | err e ↦ err e
  | ok names ↦ ok (with_names nn names)
]

unfoldable pub node_names_handler : Handler NodeNames
unfolding node_names_match node_names_first single_shot
node_names_handler = single_shot node_names_first node_names_match

pub record NodePort : Type 0 where
  pub result : ℤ
  pub timeout : ℕ
  pub args : List Bytes

unfoldable pub new_node_port : ℕ → Bytes → NodePort
new_node_port timeout pod_namespace = record {
  result = error;
  timeout = timeout;
  args =
      codes "oc"
      ∷ codes "-n"
      ∷ pod_namespace
      ∷ codes "get"
      ∷ codes "services"
      ∷ codes "-o"
      ∷ codes "custom-columns=TYPE:.spec.type"
      ∷ codes "|"
      ∷ codes "grep"
      ∷ codes "-E"
      ∷ codes "'NodePort|TYPE'"
      ∷ [];
}

unfoldable pub node_port_first : NodePort → Step
node_port_first np = record { execute = []; expect = any_text ∷ []; timeout = np.timeout }

-- The two tests of the number of lines; for no lines, neither holds.
abbrev pub counted : NodePort → List Bytes → NodePort
counted np [] = np
counted np (header ∷ []) = record np { result = success }
counted np (header ∷ line ∷ lines) = record np { result = failure }

unfoldable pub node_port_match : Bytes → Bytes → Bytes → NodePort → Result Panic NodePort
node_port_match pattern before m np = ok (counted np (split (trim newline m) (codes "\n")))

unfoldable pub node_port_handler : Handler NodePort
unfolding node_port_match node_port_first single_shot
node_port_handler = single_shot node_port_first node_port_match

pub record GracePeriod : Type 0 where
  pub grace_period : ℤ
  pub result : ℤ
  pub timeout : ℕ
  pub args : List Bytes

unfoldable pub grace_period_first : GracePeriod → Step
grace_period_first gp = record { execute = []; expect = any_text ∷ []; timeout = gp.timeout }

abbrev pub parsed : GracePeriod → ℤ × Bool → GracePeriod
parsed gp (period, true) = record gp { result = success; grace_period = period }
parsed gp (period, false) = record gp { result = failure }

-- The expression has no groups, so a match is a list of one text.
unfoldable pub grace_period_match :
    Regexp → Bytes → Bytes → Bytes → GracePeriod → Result Panic GracePeriod
grace_period_match re pattern before m gp = elim (re.find_string_submatch any_text m) [
  | [] ↦ ok (record gp { result = failure })
  | whole ∷ groups ↦ elim groups [
    | [] ↦ ok (parsed gp (atoi whole))
    | _ ∷ _ ↦ ok (record gp { result = failure })
  ]
]

unfoldable pub grace_period_handler : Regexp → Handler GracePeriod
unfolding grace_period_match grace_period_first single_shot
grace_period_handler re = single_shot grace_period_first (grace_period_match re)

pub record NodeSelector : Type 0 where
  pub result : ℤ
  pub timeout : ℕ
  pub args : List Bytes

unfoldable pub node_selector_first : NodeSelector → Step
node_selector_first ns = record {
  execute = [];
  expect = codes "<none>\\s*<none>" ∷ [];
  timeout = ns.timeout;
}

unfoldable pub node_selector_match :
    Bytes → Bytes → Bytes → NodeSelector → Result Panic NodeSelector
node_selector_match pattern before m ns = ok (record ns { result = success })

unfoldable pub node_selector_handler : Handler NodeSelector
unfolding node_selector_match node_selector_first single_shot
node_selector_handler = single_shot node_selector_first node_selector_match

-- Neither of the tests of lines panics, and of one text the node names are taken exactly when it
-- fails the test of the node ports.
node_names_match-node_port_match :
    (pattern before m : Bytes) (nn : NodeNames) (np : NodePort)
    → (nn' : NodeNames) × (node_names_match pattern before m nn ≡ ok nn')
      × (np' : NodePort) × (node_port_match pattern before m np ≡ ok np')
      × ((nn'.result ≡ success) ↔ (np'.result ≡ failure))
unfolding node_names_match node_port_match split
node_names_match-node_port_match pattern before m nn np =
    let lines = split_from (codes "\n") 0 (trim newline m) in
    elim (List-cases lines.1) [
      | inl none_below ↦ (
        with_names nn [],
        rw none_below refl,
        counted np (lines.0 ∷ []),
        rw none_below refl,
        (λ h. sym h, λ h. sym h),
      )
      | inr (name, names, below) ↦ (
        with_names nn (name ∷ names),
        rw below refl,
        counted np (lines.0 ∷ name ∷ names),
        rw below refl,
        (λ h. refl, λ h. refl),
      )
    ]
