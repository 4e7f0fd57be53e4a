-- ===== src/Handlers/DaemonSet.antt =====
-- pkg/tnf/handlers/daemonset/daemonset.go: the status of a daemon set.
use test_network_function.Prelude.{
  ℕ, ◌≡◌, ◌≢◌, ◌↔◌, refl, Bytes, codes, str_eq, List, [], ◌∷◌, Bool, true, false, not, Result, ok,
  Panic, arith, if◌then◌else◌,
}
use test_network_function.Prelude.Int.{ℤ, pos}
use test_network_function.Strings.{split, fields, trim, atoi}
use test_network_function.Reel.{newline, Step, Handler}
use test_network_function.Tnf.{error, success}
use test_network_function.Handlers.{single_shot}

pub record Status : Type 0 where
  pub name : Bytes
  pub desired : ℤ
  pub current : ℤ
  pub ready : ℤ
  pub available : ℤ
  pub misscheduled : ℤ

pub record DaemonSet : Type 0 where
  pub result : ℤ
  pub timeout : ℕ
  pub args : List Bytes
  pub status : Status

abbrev pub no_status : Status
no_status = record {
  name = [];
  desired = pos 0;
  current = pos 0;
  ready = pos 0;
  available = pos 0;
  misscheduled = pos 0;
}

unfoldable pub daemon_set_first : DaemonSet → Step
daemon_set_first ds = record { execute = []; expect = codes "(?s).+" ∷ []; timeout = ds.timeout }

-- `processResult` on the six words of a line: the status that it leaves, and whether its error is
-- nil. It returns at the first word that is no number, with the error only for `Desired`.
unfoldable pub process_result :
    Status → Bytes → Bytes → Bytes → Bytes → Bytes → Bytes → Status × Bool
process_result status name desired current available ready misscheduled =
    let s0 = record status { name = name; desired = (atoi desired).0 } in
    let s1 = record s0 { current = (atoi current).0 } in
    let s2 = record s1 { available = (atoi available).0 } in
    let s3 = record s2 { ready = (atoi ready).0 } in
    let s4 = record s3 { misscheduled = (atoi misscheduled).0 } in
    if not (atoi desired).1
    then (s0, false)
    else if not (atoi current).1
    then (s1, true)
    else if not (atoi available).1
    then (s2, true)
    else if not (atoi ready).1
    then (s3, true)
    else (s4, true)

-- The body of the loop for the words of the first line that is not empty; each way through it
-- returns.
unfoldable pub read_words : List Bytes → DaemonSet → DaemonSet
unfolding process_result
read_words (name ∷ desired ∷ current ∷ available ∷ ready ∷ misscheduled ∷ []) ds =
    let (status, fine) =
      process_result ds.status name desired current available ready misscheduled in
    if fine
    then record ds { status = status; result = success }
    else record ds { status = no_status }
read_words words ds = ds

unfoldable pub read_lines : List Bytes → DaemonSet → DaemonSet
unfolding read_words
read_lines [] ds = ds
read_lines (line ∷ lines) ds =
    let later = read_lines lines ds in if str_eq line [] then later else read_words (fields line) ds

unfoldable pub daemon_set_match : Bytes → Bytes → Bytes → DaemonSet → Result Panic DaemonSet
unfolding read_lines
daemon_set_match pattern before m ds = ok (read_lines (split (trim newline m) (newline ∷ [])) ds)

unfoldable pub daemon_set_handler : Handler DaemonSet
unfolding daemon_set_match daemon_set_first single_shot
daemon_set_handler = single_shot daemon_set_first daemon_set_match

-- A new handler whose first line is not empty and has six words ends with SUCCESS exactly if the
-- second word is a number: of the others, `Current` to `Misscheduled`, none has to be one.
pub daemon_set_match_iff :
    (ds : DaemonSet)
    (pattern before m line name desired current available ready misscheduled : Bytes)
    (lines : List Bytes)
    → ds.result ≡ error
    → split (trim newline m) (newline ∷ []) ≡ line ∷ lines
    → line ≢ []
    → fields line ≡ name ∷ desired ∷ current ∷ available ∷ ready ∷ misscheduled ∷ []
    → (ds' : DaemonSet) × (daemon_set_match pattern before m ds ≡ ok ds')
      × ((ds'.result ≡ success) ↔ ((atoi desired).1 ≡ true))
unfolding daemon_set_match read_lines read_words process_result
daemon_set_match_iff ds pattern before m [] name desired current available ready misscheduled lines
      new split_lines full words =
    absurd (full refl)
daemon_set_match_iff ds pattern before m (c ∷ line) name desired current available ready
      misscheduled lines new split_lines full words =
    (
      read_words (fields (c ∷ line)) ds,
      unfold str_eq in rw split_lines,
      rw words (ground (arith, new)),
    )

-- If the first line is not empty and has six words, of which the second to the fifth are numbers,
-- the result is SUCCESS and the status has each word's value under the name of its column.
pub daemon_set_match-status :
    (ds : DaemonSet)
    (pattern before m line name desired current available ready misscheduled : Bytes)
    (lines : List Bytes)
    → split (trim newline m) (newline ∷ []) ≡ line ∷ lines
    → line ≢ []
    → fields line ≡ name ∷ desired ∷ current ∷ available ∷ ready ∷ misscheduled ∷ []
    → (atoi desired).1 ≡ true
    → (atoi current).1 ≡ true
    → (atoi available).1 ≡ true
    → (atoi ready).1 ≡ true
    → daemon_set_match pattern before m ds
      ≡ ok (record ds {
        result = success;
        status = record {
          name = name;
          desired = (atoi desired).0;
          current = (atoi current).0;
          ready = (atoi ready).0;
          available = (atoi available).0;
          misscheduled = (atoi misscheduled).0;
        };
      })
unfolding daemon_set_match read_lines read_words process_result str_eq
daemon_set_match-status ds pattern before m [] name desired current available ready misscheduled
      lines split_lines full words a b c d =
    absurd (full refl)
daemon_set_match-status ds pattern before m (x ∷ line) name desired current available ready
      misscheduled lines split_lines full words a b c d =
    rw (split_lines, words, a, b, c, d)
