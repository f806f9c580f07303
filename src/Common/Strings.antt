-- ===== src/Common/Strings.antt =====
-- The functions of the C library on texts and bytes.
use Prim.Native.Nat.{ℕ, zero, suc}
use mathlib.Core.Path.{◌≡◌, refl, ap}
use mathlib.Core.Bool.{Bool, true, false, ◌&&◌}
use mathlib.Core.Logic.{inl, inr}
use mathlib.Core.List.{List, [], ◌∷◌}
use francois_gingras_master.Common.Tests.{◌==◌, ==_self, Bool-cases, if◌then◌else◌}
use francois_gingras_master.Common.Lists.{length, replicate, length-replicate}

abbrev pub equal_bytes : List ℕ → List ℕ → Bool
equal_bytes [] [] = true
equal_bytes (x ∷ xs) (y ∷ ys) = (x == y) && equal_bytes xs ys
equal_bytes _ _ = false

-- `strncpy` of n bytes: up to the NUL byte, and NUL bytes from there on.
unfoldable pub strncpy : ℕ → List ℕ → List ℕ
strncpy zero text = []
strncpy (suc n) [] = 0 ∷ strncpy n []
strncpy (suc n) (c ∷ text) =
    let copied = strncpy n text in if c == 0 then replicate (suc n) 0 else c ∷ copied

pub equal_bytes_self : (l : List ℕ) → equal_bytes l l ≡ true
equal_bytes_self [] = refl
equal_bytes_self (x ∷ l) = rw (==_self x) (equal_bytes_self l)

pub length-strncpy : (n : ℕ) (text : List ℕ) → length (strncpy n text) ≡ n
unfolding strncpy
length-strncpy zero text = refl
length-strncpy (suc n) [] = ap suc (length-strncpy n [])
length-strncpy (suc n) (c ∷ text) = elim (Bool-cases (c == 0)) [
  | inl nul ↦ rw nul (ap suc (length-replicate n 0))
  | inr char ↦ rw char (ap suc (length-strncpy n text))
]
