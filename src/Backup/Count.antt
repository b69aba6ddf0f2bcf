-- ===== src/Backup/Count.antt =====
-- How many names of a list pass a test, through sorting, filtering and removal.
use myminivault.Prelude.{
  ℕ, ◌+◌, ◌≤◌, suc, ◌≡◌, refl, Bool, true, ◌&&◌, not, List, [], ◌∷◌, ◌++◌, arith, if◌then◌else◌,
  Bytes, bytes_eq, bytes_eq_refl, bytes_eq_iff, ◌<◌, length, Dict, erase,
}
use myminivault.Commands.Export.{insert_key, sort_strings, keys}
use myminivault.Commands.Sorting.{has}
use myminivault.Backup.{keep}

abbrev pub count : (Bytes → Bool) → List Bytes → ℕ
count p [] = 0
count p (x ∷ xs) = if p x then suc (count p xs) else count p xs

pub count-append :
    (p : Bytes → Bool) (xs ys : List Bytes) → count p (xs ++ ys) ≡ count p xs + count p ys
count-append p [] ys = omega arith
count-append p (x ∷ xs) ys = ground (arith, count-append p xs ys)

pub count-le : (p : Bytes → Bool) (xs : List Bytes) → count p xs ≤ length xs
count-le p [] = omega arith
count-le p (x ∷ xs) = ground (arith, count-le p xs)

count-insert_key :
    (p : Bytes → Bool) (k : Bytes) (ks : List Bytes) → count p (insert_key k ks) ≡ count p (k ∷ ks)
unfolding insert_key
count-insert_key p k [] = refl
count-insert_key p k (j ∷ ks) = ground (arith, count-insert_key p k ks)

pub count-sort_strings :
    (p : Bytes → Bool) (ks : List Bytes) → count p (sort_strings ks) ≡ count p ks
unfolding sort_strings
count-sort_strings p [] = refl
count-sort_strings p (k ∷ ks) =
    ground (arith, count-insert_key p k (sort_strings ks), count-sort_strings p ks)

pub count-keep :
    (p q : Bytes → Bool) (ks : List Bytes) → count p (keep q ks) ≡ count (λ k. q k && p k) ks
unfolding keep
count-keep p q [] = refl
count-keep p q (k ∷ ks) = ground (arith, count-keep p q ks)

pub count-erase {ℓ} :
    {V : Type ℓ} (p : Bytes → Bool) (k : Bytes) (m : Dict V)
    → count p (keys (erase k m)) ≡ count (λ j. not (bytes_eq j k) && p j) (keys m)
unfolding erase keys
count-erase p k [] = refl
count-erase p k ((j, v) ∷ m) = ground (arith, count-erase p k m)

-- None of the listed names is left after a test against the list.
pub count-not-has :
    (rs ks : List Bytes)
    → ((k : Bytes) → has k ks ≡ true → has k rs ≡ true)
    → count (λ k. not (has k rs)) ks ≡ 0
count-not-has rs [] h = refl
count-not-has rs (k ∷ ks) h =
    let later : (j : Bytes) → has j ks ≡ true → has j rs ≡ true = λ j e. h j (ground arith) in
    ground (arith, h k, bytes_eq_refl k, count-not-has rs ks later)

pub bytes_eq_comm : (a b : Bytes) → bytes_eq a b ≡ bytes_eq b a
bytes_eq_comm a b = ground (arith, bytes_eq_iff a b, bytes_eq_iff b a)

pub count_ext :
    (p q : Bytes → Bool) → ((k : Bytes) → p k ≡ q k) → (ks : List Bytes) → count p ks ≡ count q ks
count_ext p q e [] = refl
count_ext p q e (k ∷ ks) = ground (arith, e k, count_ext p q e ks)

pub count-has : (k : Bytes) (ks : List Bytes) → has k ks ≡ true → 0 < count (λ j. bytes_eq j k) ks
count-has k [] h = ground arith
count-has k (j ∷ ks) h = ground (arith, count-has k ks)

pub count_all : (ks : List Bytes) → count (λ k. true) ks ≡ length ks
count_all [] = refl
count_all (k ∷ ks) = omega (arith, count_all ks)
