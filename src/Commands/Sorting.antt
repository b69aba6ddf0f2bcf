-- ===== src/Commands/Sorting.antt =====
-- `sort.Strings` as the export uses it: it keeps the keys, and its result is in order.
use myminivault.Prelude.{
  ◌≡◌, refl, Bool, ◌||◌, Bool-cases, inl, inr, List, [], ◌∷◌, arith, Bytes, bytes_eq, All, any,
  is_some, Dict, lookup,
}
use myminivault.Commands.Export.{bytes_le, insert_key, sort_strings, keys}

-- The key is among those of the list.
abbrev pub has : Bytes → List Bytes → Bool
has j ks = any (λ k. bytes_eq k j) ks

has-insert_key :
    (j k : Bytes) (ks : List Bytes) → has j (insert_key k ks) ≡ (bytes_eq k j || has j ks)
unfolding insert_key
has-insert_key j k [] = refl
has-insert_key j k (i ∷ ks) = ground (arith, has-insert_key j k ks)

pub has-sort_strings : (j : Bytes) (ks : List Bytes) → has j (sort_strings ks) ≡ has j ks
unfolding sort_strings
has-sort_strings j [] = refl
has-sort_strings j (k ∷ ks) =
    ground (arith, has-insert_key j k (sort_strings ks), has-sort_strings j ks)

pub has-keys {ℓ} : {V : Type ℓ} (j : Bytes) (m : Dict V) → has j (keys m) ≡ is_some (lookup j m)
unfolding keys lookup
has-keys j [] = refl
has-keys j ((k, v) ∷ m) = ground (arith, has-keys j m)

All-insert_key {ℓ} :
    (P : Bytes → Type ℓ) (k : Bytes) (ks : List Bytes) → P k → All P ks → All P (insert_key k ks)
unfolding insert_key
All-insert_key P k [] h a = (h, tt)
All-insert_key P k (i ∷ ks) h a = elim (Bool-cases (bytes_le k i)) [
  | inl e ↦ rw e (h, a)
  | inr e ↦ rw e (a.0, All-insert_key P k ks h a.1)
]

pub All-sort_strings {ℓ} :
    (P : Bytes → Type ℓ) (ks : List Bytes) → All P ks → All P (sort_strings ks)
unfolding sort_strings
All-sort_strings P [] a = tt
All-sort_strings P (k ∷ ks) a = All-insert_key P k (sort_strings ks) a.0 (All-sort_strings P ks a.1)
