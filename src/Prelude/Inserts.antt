-- ===== src/Prelude/Inserts.antt =====
-- A map that is rebuilt entry by entry.
use mathlib.Core.List.{append-nil, append_assoc}
use mathlib.Core.Path.{◌≡◌, refl, sym, ap, ◌∙◌, subst}
use mathlib.Core.Bool.{false}
use mathlib.Core.List.{[], ◌∷◌, ◌++◌}
use mathlib.Core.Option.{none}
use Prim.Native.Nat.{ℕ}
use native.Mathlib.Omega.{arith}
use hotstuff_repbased_leader.Prelude.Tests.{◌==◌, Bool-cases}
use hotstuff_repbased_leader.Prelude.Lists.{All}
use mathlib.Core.Logic.{inl, inr}
use hotstuff_repbased_leader.Prelude.Dicts.{Dict, lookup, insert, lookup-insert}

module _ {ℓ} {V : Type ℓ} where
  -- No key occurs twice.
  abbrev pub DistinctKeys : Dict V → Type ℓ
  DistinctKeys [] = Unit
  DistinctKeys ((k, v) ∷ m) = (lookup k m ≡ none) × DistinctKeys m

  abbrev pub insert_all : Dict V → Dict V → Dict V
  insert_all [] m = m
  insert_all ((k, v) ∷ es) m = insert_all es (insert k v m)

  ne_of_missing :
      (j k : ℕ) (v : V) (front back : Dict V)
      → lookup j (front ++ (k, v) ∷ back) ≡ none
      → (j == k) ≡ false
  unfolding lookup
  ne_of_missing j k v [] back h = ground arith
  ne_of_missing j k v ((i, w) ∷ front) back h = ground (arith, ne_of_missing j k v front back)

  insert-append :
      (k : ℕ) (v : V) (front back : Dict V)
      → DistinctKeys (front ++ (k, v) ∷ back)
      → insert k v front ≡ front ++ (k, v) ∷ []
  unfolding insert
  insert-append k v [] back h = refl
  insert-append k v ((j, w) ∷ front) back h =
      ground (arith, ne_of_missing j k v front back h.0, insert-append k v front back h.1)

  pub insert_all-append : (es m : Dict V) → DistinctKeys (m ++ es) → insert_all es m ≡ m ++ es
  insert_all-append [] m h = sym (append-nil m)
  insert_all-append ((k, v) ∷ es) m h =
      ap (insert_all es) (insert-append k v m es h)
      ∙ insert_all-append es (m ++ (k, v) ∷ [])
          (subst DistinctKeys (sym (append_assoc m ((k, v) ∷ []) es)) h)
      ∙ append_assoc m ((k, v) ∷ []) es

  pub DistinctKeys-insert :
      (k : ℕ) (v : V) (m : Dict V)
      → lookup k m ≡ none
      → DistinctKeys m
      → DistinctKeys (insert k v m)
  unfolding lookup insert
  DistinctKeys-insert k v [] new h = (refl, tt)
  DistinctKeys-insert k v ((j, w) ∷ m) new h = elim (Bool-cases (j == k)) [
    | inl same ↦ ground arith
    | inr other ↦
        ground (arith, lookup-insert k j v m, DistinctKeys-insert k v m (ground arith) h.1)
  ]

  pub All-insert :
      (P : ℕ × V → Type 0) (k : ℕ) (v : V) (m : Dict V)
      → lookup k m ≡ none
      → P (k, v)
      → All P m
      → All P (insert k v m)
  unfolding lookup insert
  All-insert P k v [] new one all = (one, tt)
  All-insert P k v ((j, w) ∷ m) new one all = elim (Bool-cases (j == k)) [
    | inl same ↦ ground arith
    | inr other ↦ rw other (all.0, All-insert P k v m (ground arith) one all.1)
  ]
