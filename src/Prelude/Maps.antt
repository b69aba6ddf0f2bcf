-- ===== src/Prelude/Maps.antt =====
-- Go maps with string keys, as association lists. The order of the list is the order in which a
-- `range` loop meets the entries; Go leaves it open.
use mathlib.Core.Path.{◌≡◌, subst}
use mathlib.Core.Logic.{inl, inr}
use mathlib.Core.Option.{Option, none, some}
use mathlib.Core.List.{List, [], ◌∷◌}
use native.Mathlib.Omega.{arith}
use myminivault.Prelude.Tests.{if◌then◌else◌, Bool-cases}
use myminivault.Prelude.Lists.{All}
use myminivault.Prelude.Text.{Bytes, bytes_eq, bytes_eq_iff}

abbrev pub Dict {ℓ} : Type ℓ → Type ℓ
Dict V = List (Bytes × V)

module _ {ℓ} {V : Type ℓ} where
  -- `v, exists := m[k]`
  unfoldable pub lookup : Bytes → Dict V → Option V
  lookup k [] = none
  lookup k ((j, v) ∷ m) = if bytes_eq j k then some v else lookup k m

  -- `m[k] = v`
  unfoldable pub insert : Bytes → V → Dict V → Dict V
  insert k v [] = (k, v) ∷ []
  insert k v ((j, w) ∷ m) = if bytes_eq j k then (k, v) ∷ m else (j, w) ∷ insert k v m

  -- `delete(m, k)`
  unfoldable pub erase : Bytes → Dict V → Dict V
  erase k [] = []
  erase k ((j, v) ∷ m) = let rest = erase k m in if bytes_eq j k then rest else (j, v) ∷ rest

  pub lookup-insert :
      (k j : Bytes) (v : V) (m : Dict V)
      → lookup j (insert k v m) ≡ (if bytes_eq k j then some v else lookup j m)
  unfolding lookup insert
  lookup-insert k j v [] = ground arith
  lookup-insert k j v ((first, old) ∷ rest) = ground (
    arith,
    lookup-insert k j v rest,
    bytes_eq_iff first k,
    bytes_eq_iff first j,
    bytes_eq_iff k j,
  )

  pub lookup-erase :
      (k j : Bytes) (m : Dict V)
      → lookup j (erase k m) ≡ (if bytes_eq k j then none else lookup j m)
  unfolding lookup erase
  lookup-erase k j [] = ground arith
  lookup-erase k j ((i, w) ∷ m) =
      ground (arith, bytes_eq_iff k j, bytes_eq_iff i k, bytes_eq_iff i j, lookup-erase k j m)

-- What holds of all entries holds of the one that is found, and after one that has it is set.
module _ {ℓ κ} {V : Type ℓ} (P : Bytes × V → Type κ) where
  pub All-lookup : (k : Bytes) (v : V) (m : Dict V) → All P m → lookup k m ≡ some v → P (k, v)
  unfolding lookup
  All-lookup k v [] a h = cc
  All-lookup k v ((j, w) ∷ m) a h = elim (Bool-cases (bytes_eq j k)) [
    | inl e ↦
        let found : w ≡ v = ground arith in
        subst (λ x. P (k, x)) found (subst (λ x. P (x, w)) ((bytes_eq_iff j k).0 e) a.0)
    | inr e ↦ All-lookup k v m a.1 (ground arith)
  ]

  pub All-insert : (k : Bytes) (v : V) (m : Dict V) → All P m → P (k, v) → All P (insert k v m)
  unfolding insert
  All-insert k v [] a h = (h, tt)
  All-insert k v ((j, w) ∷ m) a h = elim (Bool-cases (bytes_eq j k)) [
    | inl e ↦ rw e (h, a.1)
    | inr e ↦ rw e (a.0, All-insert k v m a.1 h)
  ]

-- A map that may be nil: a nil map reads as an empty one.
abbrev pub entries {ℓ} : {V : Type ℓ} → Option (Dict V) → Dict V
entries none = []
entries (some m) = m
