-- ===== src/Handlers/Images.antt =====
-- pkg/tnf/handlers/cnffsdiff/cnffsdiff.go, pkg/tnf/handlers/base/redhat/version.go and
-- pkg/tnf/handlers/owners/owners.go: what a container is made of, and who owns its pod.
use test_network_function.Prelude.{
  ℕ, ◌≡◌, Bytes, codes, str_eq, List, [], ◌∷◌, ◌++◌, Bool, true, false, not, ◌&&◌, ◌||◌, none,
  Result, ok, Panic, arith, if◌then◌else◌,
}
use test_network_function.Prelude.Int.{ℤ}
use test_network_function.Strings.{contains}
use test_network_function.Reel.{
  Step, Handler, Reel, Session, timed_out, batchers, run, run_step, react, has_expectations,
}
use test_network_function.Tnf.{error, success, failure, outcome, run_test, test_handler, dispatch}
use test_network_function.Handlers.{single_shot}

pub record CnfFsDiff : Type 0 where
  pub result : ℤ
  pub timeout : ℕ
  pub args : List Bytes

-- The regular expressions for the folders that hold installed packages, in their order.
abbrev pub package_regexes : List Bytes
package_regexes =
    codes "(?m)[\\t|\\s]\\/var\\/lib\\/rpm[.]*"
    ∷ codes "(?m)[\\t|\\s]\\/var\\/lib\\/dpkg[.]*"
    ∷ codes "(?m)[\\t|\\s]\\/bin[.]*"
    ∷ codes "(?m)[\\t|\\s]\\/sbin[.]*"
    ∷ codes "(?m)[\\t|\\s]\\/lib[.]*"
    ∷ codes "(?m)[\\t|\\s]\\/usr\\/bin[.]*"
    ∷ codes "(?m)[\\t|\\s]\\/usr\\/sbin[.]*"
    ∷ codes "(?m)[\\t|\\s]\\/usr\\/lib[.]*"
    ∷ []

abbrev pub no_diff_regex : Bytes
no_diff_regex = codes "(?m){}"

abbrev pub accept_all_regex : Bytes
accept_all_regex = codes "(?m)(.|\\n)+"

-- `Command`
unfoldable pub fs_diff_command : Bytes → List Bytes
fs_diff_command container_id =
    codes "chroot"
    ∷ codes "/host"
    ∷ codes "podman"
    ∷ codes "diff"
    ∷ codes "--format"
    ∷ codes "json"
    ∷ container_id
    ∷ []

unfoldable pub new_fs_diff : ℕ → Bytes → CnfFsDiff
unfolding fs_diff_command
new_fs_diff timeout container_id = record {
  result = success;
  timeout = timeout;
  args = fs_diff_command container_id;
}

unfoldable pub fs_diff_first : CnfFsDiff → Step
fs_diff_first p = record {
  execute = [];
  expect = package_regexes ++ no_diff_regex ∷ accept_all_regex ∷ [];
  timeout = p.timeout;
}

abbrev pub is_one_of : Bytes → List Bytes → Bool
is_one_of s [] = false
is_one_of s (a ∷ rest) = str_eq s a || is_one_of s rest

unfoldable pub fs_diff_match : Bytes → Bytes → Bytes → CnfFsDiff → Result Panic CnfFsDiff
fs_diff_match pattern before m p =
    if is_one_of pattern package_regexes
    then ok (record p { result = failure })
    else ok (record p { result = success })

unfoldable pub fs_diff_handler : Handler CnfFsDiff
unfolding fs_diff_match fs_diff_first single_shot
fs_diff_handler = single_shot fs_diff_first fs_diff_match

-- `Result`, of the handler that is the chain's only one.
abbrev pub fs_diff_result : List CnfFsDiff → ℤ
fs_diff_result [] = error
fs_diff_result (p ∷ chain) = p.result

pub record Release : Type 0 where
  pub result : ℤ
  pub timeout : ℕ
  pub args : List Bytes
  pub release : Bytes
  pub is_red_hat_based : Bool

abbrev pub not_red_hat_based_regex : Bytes
not_red_hat_based_regex = codes "(?m)Unknown Base Image"

abbrev pub version_regex : Bytes
version_regex = codes "(?m)Red Hat Enterprise Linux( Server)? release (\\d+\\.\\d+) \\(\\w+\\)"

unfoldable pub release_first : Release → Step
release_first r = record {
  execute = [];
  expect = version_regex ∷ not_red_hat_based_regex ∷ [];
  timeout = r.timeout;
}

unfoldable pub release_match : Bytes → Bytes → Bytes → Release → Result Panic Release
release_match pattern before m r =
    if str_eq pattern not_red_hat_based_regex
    then ok (record r { result = failure; is_red_hat_based = false })
    else if str_eq pattern version_regex
    then ok (record r { result = success; is_red_hat_based = true })
    else ok (record r { result = error; is_red_hat_based = false })

unfoldable pub release_handler : Handler Release
unfolding release_match release_first single_shot
release_handler = single_shot release_first release_match

pub record Owners : Type 0 where
  pub result : ℤ
  pub timeout : ℕ
  pub args : List Bytes

unfoldable pub owners_first : Owners → Step
owners_first ow = record {
  execute = [];
  expect = codes "(?s)OWNERKIND\n.+" ∷ [];
  timeout = ow.timeout;
}

unfoldable pub owners_match : Bytes → Bytes → Bytes → Owners → Result Panic Owners
owners_match pattern before m ow =
    if (contains (codes "StatefulSet") m || contains (codes "ReplicaSet") m)
      && not (contains (codes "DaemonSet") m)
    then ok (record ow { result = success })
    else ok (record ow { result = failure })

unfoldable pub owners_handler : Handler Owners
unfolding owners_match owners_first single_shot
owners_handler = single_shot owners_first owners_match

-- A new test of a container's file system whose session times out, with a silent error channel, has
-- the result SUCCESS and no error, although nothing was read: the handler starts out with SUCCESS.
pub fs_diff_timed_out :
    (r : Reel) (session : Session) (timeout : ℕ) (container_id : Bytes)
    → ((j : ℕ) → session.channel_error j ≡ none)
    → session.expect_batch 0
        (batchers
          (test_handler fs_diff_handler)
          r
          session
          (fs_diff_first (new_fs_diff timeout container_id)))
        timeout
      ≡ timed_out
    → run_test fs_diff_handler fs_diff_result r session 2 (new_fs_diff timeout container_id ∷ [])
      ≡ outcome success none
unfolding run_test run run_step react has_expectations test_handler dispatch fs_diff_handler
    fs_diff_first new_fs_diff single_shot
fs_diff_timed_out r session timeout container_id silent late =
    ground (arith, silent 0, silent 1, late)
