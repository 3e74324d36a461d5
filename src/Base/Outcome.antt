-- ===== src/Base/Outcome.antt =====
-- What a call that may throw gives back.
use Prim.Native.String.{String}
use mathlib.Core.Path.{◌≡◌, refl}
use native.Mathlib.Omega.{arith}

pub data Error : Type 0 where
  transition_after_close invalid_compatibility_registry : Error
  unsupported_operation : String → Error
  invalid_argument allocator_exhausted invalid_clock : Error

pub data Outcome {ℓ} (A : Type ℓ) : Type ℓ where
  ok : A → Outcome A
  thrown : Error → Outcome A

infixl 5 ◌>>=◌
abbrev pub ◌>>=◌ {ℓ κ} : {A : Type ℓ} {B : Type κ} → Outcome A → (A → Outcome B) → Outcome B
ok a >>= f = f a
thrown e >>= f = thrown e

-- What came first in a chain that succeeds did not throw.
pub chain-eq-ok {ℓ κ} :
    {X : Type ℓ} {Y : Type κ} (first : Outcome X) (next : X → Outcome Y) {end : Y}
    → (first >>= next) ≡ ok end
    → (x : X) × (first ≡ ok x) × (next x ≡ ok end)
chain-eq-ok (thrown problem) next done = absurd (ground arith)
chain-eq-ok (ok x) next done = (x, refl, done)

-- `P` holds of the result, if there is one.
abbrev pub OnOk {ℓ κ} : {A : Type ℓ} → (A → Type κ) → Outcome A → Type κ
OnOk P (ok a) = P a
OnOk P (thrown e) = Unit

pub OnOk-chain {ℓ κ μ ν} :
    {A : Type ℓ} {B : Type κ} (P : A → Type μ) (Q : B → Type ν) (first : Outcome A)
    (next : A → Outcome B)
    → OnOk P first
    → ((a : A) → P a → OnOk Q (next a))
    → OnOk Q (first >>= next)
OnOk-chain P Q (ok a) next h k = k a h
OnOk-chain P Q (thrown e) next h k = tt
