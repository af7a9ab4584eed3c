-- ===== src/Base/Order.antt =====
-- Products with a common factor, and chains of equivalences.
use Prim.Native.Nat.{ℕ, ◌+◌, ◌*◌, ◌≤◌, ◌<◌}
use mathlib.Core.Logic.{◌↔◌}
use native.Mathlib.Omega.{arith}

pub mul_step : (n q u : ℕ) → n < q → n * u + u ≤ q * u
mul_step n q u h = grind arith

pub iff_trans : {A B C : Type 0} → A ↔ B → B ↔ C → A ↔ C
iff_trans f g = (λ a. g.0 (f.0 a), λ c. f.1 (g.1 c))
