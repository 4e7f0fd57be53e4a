-- ===== src/Handlers.antt =====
-- pkg/tnf/handlers: what the handlers written in Go share.
--
-- Each of them sends the one step that `ReelFirst` gives, reads the result of the test from what
-- was matched, and has nothing more to do; only DeploymentsDrain answers a timeout with a step.
pub mod Runs
pub mod Ping
pub mod Bindings
pub mod NodeHugepages
pub mod DaemonSet
pub mod Drain
pub mod Deployments
pub mod Subjects
pub mod Verdicts
pub mod Hugepages
pub mod Images
pub mod Placements
pub mod Listings
use test_network_function.Prelude.{
  ℕ, Bytes, List, get_elem?, Option, none, some, Result, ok, err, ◌>>=◌, Panic, index_out_of_range,
}
use test_network_function.Reel.{Step, Handler}

-- `xs[i]`
unfoldable pub at : List Bytes → ℕ → Result Panic Bytes
at xs i = elim (get_elem? xs i) [ none ↦ err index_out_of_range | some x ↦ ok x ]

-- `ReelFirst` gives the step, `ReelMatch` changes the state and gives none, `ReelTimeout` gives
-- none, and `ReelEOF` does nothing.
unfoldable pub single_shot :
    {S : Type 0} → (S → Step) → (Bytes → Bytes → Bytes → S → Result Panic S) → Handler S
single_shot first_step read_match = record {
  reel_first = λ h. ok (h, some (first_step h));
  reel_match = λ pattern before m h. (do h' ← read_match pattern before m h; ok (h', none));
  reel_timeout = λ h. ok (h, none);
  reel_eof = λ h. h;
}
