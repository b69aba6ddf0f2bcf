-- ===== src/Backup/Ordered.antt =====
-- `sort.Strings` puts names in the order of their bytes.
use myminivault.Prelude.{
  ◌<◌, ◌≡◌, refl, Bool, true, false, List, [], ◌∷◌, ◌++◌, arith, Bytes, bytes_eq, bytes_eq_iff,
  length, All, All-imp, Bool-cases, inl, inr,
}
use myminivault.Commands.Export.{bytes_le, insert_key, sort_strings}
use myminivault.Commands.Sorting.{has}
use myminivault.Backup.Count.{count, count-le}

pub bytes_le_total : (x y : Bytes) → bytes_le x y ≡ false → bytes_le y x ≡ true
unfolding bytes_le
bytes_le_total [] y h = ground arith
bytes_le_total (a ∷ x) [] h = refl
bytes_le_total (a ∷ x) (b ∷ y) h = ground (arith, bytes_le_total x y)

bytes_le_trans : (x y z : Bytes) → bytes_le x y ≡ true → bytes_le y z ≡ true → bytes_le x z ≡ true
unfolding bytes_le
bytes_le_trans [] y z h k = refl
bytes_le_trans (a ∷ x) [] z h k = ground arith
bytes_le_trans (a ∷ x) (b ∷ y) [] h k = ground arith
bytes_le_trans (a ∷ x) (b ∷ y) (c ∷ z) h k = ground (arith, bytes_le_trans x y z)

pub bytes_le-append : (p x y : Bytes) → bytes_le (p ++ x) (p ++ y) ≡ bytes_le x y
unfolding bytes_le
bytes_le-append [] x y = refl
bytes_le-append (c ∷ p) x y = ground (arith, bytes_le-append p x y)

abbrev pub IsSorted : List Bytes → Type 0
IsSorted [] = Unit
IsSorted (x ∷ xs) = All (λ y. bytes_le x y ≡ true) xs × IsSorted xs

All-insert_key :
    (x k : Bytes) (ks : List Bytes)
    → bytes_le x k ≡ true
    → All (λ y. bytes_le x y ≡ true) ks
    → All (λ y. bytes_le x y ≡ true) (insert_key k ks)
unfolding insert_key
All-insert_key x k [] h a = (h, tt)
All-insert_key x k (j ∷ ks) h a = elim (Bool-cases (bytes_le k j)) [
  | inl e ↦ rw e (h, a)
  | inr e ↦ rw e (a.0, All-insert_key x k ks h a.1)
]

insert_key-IsSorted : (k : Bytes) (ks : List Bytes) → IsSorted ks → IsSorted (insert_key k ks)
unfolding insert_key
insert_key-IsSorted k [] s = (tt, tt)
insert_key-IsSorted k (j ∷ ks) s = elim (Bool-cases (bytes_le k j)) [
  | inl e ↦ rw e (
    (
      e,
      All-imp {P = λ y. bytes_le j y ≡ true} {Q = λ y. bytes_le k y ≡ true}
          (λ y h. bytes_le_trans k j y e h) ks s.0,
    ),
    s,
  )
  | inr e ↦ rw e (All-insert_key j k ks (bytes_le_total k j e) s.0, insert_key-IsSorted k ks s.1)
]

pub sort_strings-IsSorted : (ks : List Bytes) → IsSorted (sort_strings ks)
unfolding sort_strings
sort_strings-IsSorted [] = tt
sort_strings-IsSorted (k ∷ ks) = insert_key-IsSorted k (sort_strings ks) (sort_strings-IsSorted ks)

-- In order, no name of the front lies above one of the rest.
pub front-below :
    (front rest : List Bytes) (k : Bytes)
    → IsSorted (front ++ rest)
    → has k rest ≡ true
    → All (λ j. bytes_le j k ≡ true) front
front-below [] rest k s h = tt
front-below (j ∷ front) rest k s h =
    (at_name (front ++ rest) k s.0 (ground (arith, has_rest)), front-below front rest k s.1 h)
  where
    has_rest : has k (front ++ rest) ≡ true
    has_rest = in_rest front
      where
        in_rest : (xs : List Bytes) → has k (xs ++ rest) ≡ true
        in_rest [] = h
        in_rest (x ∷ xs) = ground (arith, in_rest xs)

    at_name :
        (ks : List Bytes) (i : Bytes)
        → All (λ y. bytes_le j y ≡ true) ks
        → has i ks ≡ true
        → bytes_le j i ≡ true
    at_name [] i a e = ground arith
    at_name (x ∷ ks) i a e = elim (Bool-cases (bytes_eq x i)) [
      | inl same ↦ rw (← (bytes_eq_iff x i).0 same) a.0
      | inr other ↦ at_name ks i a.1 (ground arith)
    ]

-- A list that has a name outside the test has more names than pass it.
pub count-lt :
    (p : Bytes → Bool) (k : Bytes) (ks : List Bytes)
    → has k ks ≡ true
    → p k ≡ false
    → count p ks < length ks
count-lt p k [] h n = ground arith
count-lt p k (j ∷ ks) h n = elim (Bool-cases (bytes_eq j k)) [
  | inl same ↦
      let same' : j ≡ k = (bytes_eq_iff j k).0 same in
      rw same' (rw n (omega (arith, count-le p ks)))
  | inr other ↦ ground (arith, count-lt p k ks)
]

pub count-none :
    (p q : Bytes → Bool) (ks : List Bytes)
    → ((k : Bytes) → q k ≡ true → p k ≡ false)
    → All (λ k. q k ≡ true) ks
    → count p ks ≡ 0
count-none p q [] apart a = refl
count-none p q (k ∷ ks) apart a = ground (arith, apart k, count-none p q ks)
