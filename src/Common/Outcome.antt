-- ===== src/Common/Outcome.antt =====
-- What a Go call comes to: a value, a run-time panic, or no end within the fuel of a model's loop.
use Prim.Native.Nat.{ℕ, zero, suc, ◌<◌}
use mathlib.Core.List.{List, [], ◌∷◌}
use mathlib.Core.Option.{none, some}
use mathlib.Core.Path.{◌≡◌, refl}
use native.Mathlib.Omega.{arith}
use andsifr.Common.Lists.{get_elem?, get_or, set, length}
use andsifr.Common.Tests.{ltb, if◌then◌else◌}

pub data Outcome {ℓ} (A : Type ℓ) : Type ℓ where
  ok : A → Outcome A
  panic : Outcome A
  stuck : Outcome A

infixl 5 ◌>>=◌
abbrev pub ◌>>=◌ {ℓ κ} : {A : Type ℓ} {B : Type κ} → Outcome A → (A → Outcome B) → Outcome B
ok a >>= f = f a
panic >>= f = panic
stuck >>= f = stuck

-- `s[i]` and `s[i] = v` on a slice: out of range they panic.
abbrev pub index {ℓ} : {A : Type ℓ} → List A → ℕ → Outcome A
index xs i = elim (get_elem? xs i) [ none ↦ panic | some a ↦ ok a ]

abbrev pub assign {ℓ} : {A : Type ℓ} → List A → ℕ → A → Outcome (List A)
assign xs i v = if ltb i (length xs) then ok (set xs i v) else panic

-- In range they return.
module _ {ℓ} {A : Type ℓ} where
  pub index_in_range :
      (xs : List A) (i : ℕ) (d : A) → i < length xs → index xs i ≡ ok (get_or xs i d)
  index_in_range [] i d h = elim h [ ]
  index_in_range (x ∷ xs) zero d h = refl
  index_in_range (x ∷ xs) (suc i) d h = index_in_range xs i d (omega arith)

  pub assign_in_range :
      (xs : List A) (i : ℕ) (v : A) → i < length xs → assign xs i v ≡ ok (set xs i v)
  assign_in_range xs i v h = ground arith

pub ok-injective {ℓ} : {A : Type ℓ} {a b : A} → ok a ≡ ok b → a ≡ b
ok-injective e = cc
