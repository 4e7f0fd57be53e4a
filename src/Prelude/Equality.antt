-- ===== src/Prelude/Equality.antt =====
-- Go's `==` on the types that are compared or used as map keys.
use Prim.Native.Nat.{ℕ}
use mathlib.Core.Path.{◌≡◌}
use mathlib.Core.Logic.{◌↔◌}
use mathlib.Core.Bool.{Bool, true}
use test_network_function.Prelude.Tests.{◌==◌ as nat_beq, ==_iff as nat_beq_iff}
use test_network_function.Prelude.Text.{Bytes, str_eq, str_eq_iff}

pub record Eq {ℓ} (A : Type ℓ) : Type ℓ where
  pub beq : A → A → Bool
  pub beq_iff : (a b : A) → (beq a b ≡ true) ↔ (a ≡ b)

instance abbrev pub nat_eq : Eq ℕ
nat_eq = record { beq = nat_beq; beq_iff = nat_beq_iff }

instance abbrev pub bytes_eq : Eq Bytes
bytes_eq = record { beq = str_eq; beq_iff = str_eq_iff }
