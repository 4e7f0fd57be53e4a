-- ===== src/Generic/Endings.antt =====
-- When a run of the generic handler ends.
use test_network_function.Prelude.{
  ℕ, suc, ◌+◌, ◌<◌, ◌≡◌, ◌≢◌, Bytes, Option, none, some, arith, List,
}
use test_network_function.Prelude.Int.{ℤ}
use test_network_function.Reel.{Step, Reel, Session, running, run}
use test_network_function.Reel.Ending.{Decreases, Answers, run_ends}
use test_network_function.Generic.{
  Regexp, Assertions, ResultContext, result_context, Contexts, no_contexts, cons_context, Generic,
  find_result_context, generic_handler,
}
use test_network_function.Generic.Matching.{reel_match-step}

-- The number of the contexts in a tree of contexts.
unfoldable mutual
  pub context_size : ResultContext → ℕ
  context_size (result_context p groups d step next) = suc (contexts_size next)

  pub contexts_size : Contexts → ℕ
  contexts_size no_contexts = 0
  contexts_size (cons_context c rest) = context_size c + contexts_size rest

find_result_context-size :
    (cs : Contexts) (pattern p : Bytes) (groups : List Assertions) (d : ℤ) (s : Option Step)
    (next : Contexts)
    → find_result_context cs pattern ≡ some (result_context p groups d s next)
    → contexts_size next < contexts_size cs
unfolding find_result_context contexts_size
find_result_context-size no_contexts pattern p groups d s next h = ground arith
find_result_context-size (cons_context (result_context q gs e t n) rest) pattern p groups d s next
      h =
    ground (arith, find_result_context-size rest pattern p groups d s next)

abbrev rank : Generic → ℕ
rank g = contexts_size g.current_reel_match_result_contexts

-- The handler gives up at a timeout.
abbrev pub HasNoTimeoutStep : Generic → Type 0
HasNoTimeoutStep g = g.reel_timeout_step ≡ none

generic_handler-Decreases : (re : Regexp) → Decreases (generic_handler re) HasNoTimeoutStep rank
unfolding generic_handler
generic_handler-Decreases re = record {
  on_match = λ p before m g g' s no_step e.
      let (q, groups, d, next, found, _, final) = reel_match-step re p before m g g' s e in
      (
        ground arith,
        ground (
          arith,
          find_result_context-size g.current_reel_match_result_contexts p q groups d (some s) next
              found,
        ),
      );
  on_timeout = λ g g' s no_step e. absurd (ground arith);
}

-- A run of the generic handler without a step for timeouts ends in every session that answers: the
-- matched contexts are nested, so two rounds more than there are contexts are enough.
pub generic_handler_ends :
    (re : Regexp) (r : Reel) (session : Session) (g : Generic) (fuel : ℕ)
    → Answers session
    → g.reel_timeout_step ≡ none
    → contexts_size g.current_reel_match_result_contexts + 1 < fuel
    → run (generic_handler re) r session fuel g ≢ running
unfolding generic_handler
generic_handler_ends re r session g fuel answers no_step enough =
    run_ends (generic_handler re) r HasNoTimeoutStep rank (generic_handler-Decreases re) session
      answers fuel g (λ g' first_step e. (ground arith, ground arith))
