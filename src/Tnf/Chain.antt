-- ===== src/Tnf/Chain.antt =====
-- `dispatch` over a chain of handlers.
use test_network_function.Prelude.{
  ℕ, ◌<◌, Bytes, ◌≡◌, ◌≢◌, List, [], ◌∷◌, ◌++◌, Option, none, some, Result, ok, Result-cases, inl,
  inr, Panic, arith,
}
use test_network_function.Prelude.Int.{ℤ}
use test_network_function.Reel.{Step, Handler, Reel, Session}
use test_network_function.Reel.Ending.{Decreases, Answers, run_ends}
use test_network_function.Tnf.{dispatch, test_handler, unfinished, run_test}

module _ {S : Type 0} (fp : S → Result Panic (S × Option Step)) where
  -- Each handler of the list is asked, and gives no step.
  abbrev pub GiveNone : List S → List S → Type 0
  GiveNone [] [] = Unit
  GiveNone [] (y ∷ ys) = ⊥
  GiveNone (x ∷ xs) [] = ⊥
  GiveNone (x ∷ xs) (y ∷ ys) = (fp x ≡ ok (y, none)) × GiveNone xs ys

  -- The step of the first handler of the chain that gives one is the step of the test; the handlers
  -- before it have been asked, and those behind it keep their states.
  pub dispatch_first :
      (before before' after : List S) (x x' : S) (step : Step)
      → GiveNone before before'
      → fp x ≡ ok (x', some step)
      → dispatch fp (before ++ x ∷ after) ≡ ok (before' ++ x' ∷ after, some step)
  unfolding dispatch
  dispatch_first [] [] after x x' step g h = rw h
  dispatch_first [] (y ∷ ys) after x x' step g h = absurd g
  dispatch_first (b ∷ bs) [] after x x' step g h = absurd g
  dispatch_first (b ∷ bs) (y ∷ ys) after x x' step (g, gs) h =
      rw (g, dispatch_first bs ys after x x' step gs h)

-- A handler that asks for no step behind its first: each answer to a match or a timeout is nil.
pub record IsSingleShot {S : Type 0} (hd : Handler S) : Type 0 where
  pub on_match :
      (p before m : Bytes) (h h' : S) (o : Option Step)
      → hd.reel_match p before m h ≡ ok (h', o)
      → o ≡ none
  pub on_timeout : (h h' : S) (o : Option Step) → hd.reel_timeout h ≡ ok (h', o) → o ≡ none

dispatch_single :
    {S : Type 0} (fp : S → Result Panic (S × Option Step))
    → ((h h' : S) (o : Option Step) → fp h ≡ ok (h', o) → o ≡ none)
    → (chain chain' : List S) (o : Option Step) → dispatch fp chain ≡ ok (chain', o)
    → o ≡ none
unfolding dispatch
dispatch_single fp none_given [] chain' o e = ground arith
dispatch_single fp none_given (x ∷ chain) chain' o e = elim (Result-cases (fp x)) [
  | inl (p, bad) ↦ absurd (ground arith)
  | inr ((y, oy), a) ↦ elim (Result-cases (dispatch fp chain)) [
    | inl (p, bad) ↦ absurd (ground (arith, none_given x y oy a))
    | inr ((c, oc), b) ↦
        ground (arith, none_given x y oy a, dispatch_single fp none_given chain c oc b)
  ]
]

test_handler-IsSingleShot :
    {S : Type 0} (hd : Handler S) → IsSingleShot hd → IsSingleShot (test_handler hd)
unfolding test_handler
test_handler-IsSingleShot hd single = record {
  on_match = λ p before m h h' o e.
      dispatch_single (hd.reel_match p before m) (single.on_match p before m) h h' o e;
  on_timeout = λ h h' o e. dispatch_single hd.reel_timeout single.on_timeout h h' o e;
}

IsSingleShot-Decreases :
    {S : Type 0} (hd : Handler S) → IsSingleShot hd → Decreases hd (λ h. Unit) (λ h. 0)
IsSingleShot-Decreases hd single = record {
  on_match = λ p before m h h' s u e. cc (single.on_match p before m h h' (some s) e);
  on_timeout = λ h h' s u e. cc (single.on_timeout h h' (some s) e);
}

-- A test whose handlers ask for no step behind the first one ends: two rounds of the loop are
-- enough for the whole run, in every session that answers.
pub run_test_ends :
    {S : Type 0} (hd : Handler S) (tester_result : List S → ℤ) (r : Reel) (session : Session)
    → IsSingleShot hd
    → Answers session
    → (fuel : ℕ) (chain : List S) → 1 < fuel
    → run_test hd tester_result r session fuel chain ≢ unfinished
unfolding run_test
run_test_ends hd tester_result r session single answers fuel chain f = ground (
  arith,
  run_ends (test_handler hd) r (λ h. Unit) (λ h. 0)
      (IsSingleShot-Decreases (test_handler hd) (test_handler-IsSingleShot hd single)) session
      answers fuel chain (λ h' first_step e. (tt, omega arith)),
)
