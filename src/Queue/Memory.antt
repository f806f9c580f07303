-- ===== src/Queue/Memory.antt =====
-- The bytes of a queue's shared segment, as the objects that lie in it, each at its offset from the
-- start of the segment. A write drops every object of which it overwrites a byte.
use francois_gingras_master.Common.{
  ℕ, ◌+◌, ◌≤◌, ◌<◌, ◌≡◌, ◌⊎◌, Bool, false, ◌&&◌, Option, none, some, List, [], ◌∷◌, arith, ltb,
  ◌==◌, if◌then◌else◌,
}

-- `[a, a + n)` and `[b, b + k)` have a byte in common (both have a byte).
abbrev pub overlaps : ℕ → ℕ → ℕ → ℕ → Bool
overlaps a n b k = ltb a (b + k) && ltb b (a + n)

module _ {M : Type 0} (extent : M → ℕ) where
  pub evict : ℕ → ℕ → List (ℕ × M) → List (ℕ × M)
  evict a n [] = []
  evict a n ((b, m) ∷ mem) =
      let rest = evict a n mem in if overlaps a n b (extent m) then rest else (b, m) ∷ rest

  unfoldable pub store : ℕ → M → List (ℕ × M) → List (ℕ × M)
  unfolding evict
  store a m mem = (a, m) ∷ evict a (extent m) mem

module _ {M : Type 0} where
  unfoldable pub load : ℕ → List (ℕ × M) → Option M
  load a [] = none
  load a ((b, m) ∷ mem) = if a == b then some m else load a mem

module _ {M : Type 0} (extent : M → ℕ) where
  pub load-store_self :
      (a : ℕ) (m : M) (mem : List (ℕ × M)) → load a (store extent a m mem) ≡ some m
  unfolding load store
  load-store_self a m mem = ground arith

  load-evict :
      (a n p : ℕ) (m : M) (mem : List (ℕ × M))
      → load p mem ≡ some m
      → overlaps a n p (extent m) ≡ false
      → load p (evict extent a n mem) ≡ some m
  unfolding load evict
  load-evict a n p m [] h d = h
  load-evict a n p m ((b, k) ∷ mem) h d = ground (arith, load-evict a n p m mem)

  -- A write leaves the objects that it does not touch.
  pub load-store_apart :
      (a p : ℕ) (m k : M) (mem : List (ℕ × M))
      → 0 < extent m
      → 0 < extent k
      → load p mem ≡ some k
      → (p + extent k ≤ a) ⊎ (a + extent m ≤ p)
      → load p (store extent a m mem) ≡ some k
  unfolding load store
  load-store_apart a p m k mem hm hk h apart = ground (arith, load-evict a (extent m) p k mem)
