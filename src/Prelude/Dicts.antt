-- ===== src/Prelude/Dicts.antt =====
-- Go maps with integer keys, as association lists: a write replaces in place or appends.
use Prim.Native.Nat.{ℕ}
use mathlib.Core.Path.{◌≡◌, refl}
use mathlib.Core.Bool.{Bool}
use mathlib.Core.List.{List, [], ◌∷◌}
use mathlib.Core.Option.{Option, none, some}
use native.Mathlib.Omega.{arith}
use hotstuff_repbased_leader.Prelude.Tests.{◌==◌, if◌then◌else◌}

abbrev pub Dict {ℓ} : Type ℓ → Type ℓ
Dict V = List (ℕ × V)

module _ {ℓ} {V : Type ℓ} where
  unfoldable pub lookup : ℕ → Dict V → Option V
  lookup k [] = none
  lookup k ((key, value) ∷ rest) = if key == k then some value else lookup k rest

  unfoldable pub insert : ℕ → V → Dict V → Dict V
  insert k new [] = (k, new) ∷ []
  insert k new ((key, old) ∷ rest) =
      if key == k then (k, new) ∷ rest else (key, old) ∷ insert k new rest

  -- `delete(m, k)`.
  unfoldable pub delete : ℕ → Dict V → Dict V
  delete k [] = []
  delete k ((j, v) ∷ m) = let rest = delete k m in if j == k then rest else (j, v) ∷ rest

  -- The entries whose key and value pass a test: a loop over the map that deletes the others.
  unfoldable pub keep : (ℕ → V → Bool) → Dict V → Dict V
  keep p [] = []
  keep p ((j, v) ∷ m) = let rest = keep p m in if p j v then (j, v) ∷ rest else rest

  pub lookup-insert :
      (k asked : ℕ) (new : V) (dict : Dict V)
      → lookup asked (insert k new dict) ≡ (if k == asked then some new else lookup asked dict)
  unfolding lookup insert
  lookup-insert k asked new [] = refl
  lookup-insert k asked new ((key, old) ∷ rest) = ground (arith, lookup-insert k asked new rest)

  pub lookup-delete :
      (k j : ℕ) (m : Dict V) → lookup j (delete k m) ≡ (if k == j then none else lookup j m)
  unfolding lookup delete
  lookup-delete k j [] = ground arith
  lookup-delete k j ((i, w) ∷ m) = ground (arith, lookup-delete k j m)

  pub lookup-keep :
      (p : ℕ → Bool) (k : ℕ) (m : Dict V)
      → lookup k (keep (λ j _. p j) m) ≡ (if p k then lookup k m else none)
  unfolding lookup keep
  lookup-keep p k [] = ground arith
  lookup-keep p k ((j, v) ∷ m) = ground (arith, lookup-keep p k m)
