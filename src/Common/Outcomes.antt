-- ===== src/Common/Outcomes.antt =====
-- What a call does: it returns, or it touches memory that it may not touch (undefined behaviour in
-- C), or it ends the process by `exit`.
use Prim.Native.Nat.{ℕ, ◌≤◌, ◌<◌}
use mathlib.Core.Path.{◌≡◌, refl}
use mathlib.Core.Option.{Option, none, some}
use mathlib.Core.Bool.{true}
use native.Mathlib.Omega.{arith}
use francois_gingras_master.Common.Int.{ℤ, pos_part, neg_part}
use francois_gingras_master.Common.Tests.{ltb, leb, if◌then◌else◌}

pub data Outcome {ℓ} (A : Type ℓ) : Type ℓ where
  done : A → Outcome A
  fault : Outcome A
  exits : Outcome A

infixl 5 ◌>>=◌
abbrev pub ◌>>=◌ {ℓ κ} : {A : Type ℓ} {B : Type κ} → Outcome A → (A → Outcome B) → Outcome B
done a >>= f = f a
fault >>= f = fault
exits >>= f = exits

-- The value behind a pointer that may be invalid.
abbrev pub or_fault {ℓ} : {A : Type ℓ} → Option A → Outcome A
or_fault none = fault
or_fault (some a) = done a

-- The result of signed arithmetic whose type reaches from -limit to limit - 1: overflow is a fault.
abbrev pub in_range : ℕ → ℤ → Outcome ℤ
in_range limit d =
    if ltb (pos_part d) limit then if leb (neg_part d) limit then done d else fault else fault

pub in_range-done :
    (limit : ℕ) (d : ℤ) → pos_part d < limit → neg_part d ≤ limit → in_range limit d ≡ done d
in_range-done limit d h k =
    let above : ltb (pos_part d) limit ≡ true = ground arith in
    let below : leb (neg_part d) limit ≡ true = ground arith in rw (above, below) refl
