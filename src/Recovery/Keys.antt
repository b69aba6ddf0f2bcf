-- ===== src/Recovery/Keys.antt =====
-- The groups of a recovery key are short, and without their dashes they are the key.
use myminivault.Prelude.{
  ◌≡◌, ◌≤◌, ◌∙◌, join_with, All-imp, refl, ap, [], ◌∷◌, ◌++◌, Bytes, List, All, Lacks, length,
  arith, split_on, split_on-join_with,
}
use myminivault.Recovery.{key_groups, group_key}

-- The groups one after the other.
abbrev pub joined : List Bytes → Bytes
joined [] = []
joined (s ∷ groups) = s ++ joined groups

joined-key_groups : (encoded : Bytes) → joined (key_groups encoded) ≡ encoded
unfolding key_groups
joined-key_groups [] = refl
joined-key_groups (a ∷ []) = refl
joined-key_groups (a ∷ b ∷ []) = refl
joined-key_groups (a ∷ b ∷ c ∷ []) = refl
joined-key_groups (a ∷ b ∷ c ∷ d ∷ []) = refl
joined-key_groups (a ∷ b ∷ c ∷ d ∷ e ∷ []) = refl
joined-key_groups (a ∷ b ∷ c ∷ d ∷ e ∷ f ∷ encoded) =
    ap (λ s. a ∷ b ∷ c ∷ d ∷ e ∷ s) (joined-key_groups (f ∷ encoded))

-- The groups hold no dash where the key holds none, and at most five bytes.
abbrev IsGroup : Bytes → Type 0
IsGroup s = Lacks b'-' s × (length s ≤ 5)

key_groups-IsGroup : (encoded : Bytes) → Lacks b'-' encoded → All IsGroup (key_groups encoded)
unfolding key_groups
key_groups-IsGroup [] h = tt
key_groups-IsGroup (a ∷ []) h = ((h, omega arith), tt)
key_groups-IsGroup (a ∷ b ∷ []) h = ((h, omega arith), tt)
key_groups-IsGroup (a ∷ b ∷ c ∷ []) h = ((h, omega arith), tt)
key_groups-IsGroup (a ∷ b ∷ c ∷ d ∷ []) h = ((h, omega arith), tt)
key_groups-IsGroup (a ∷ b ∷ c ∷ d ∷ e ∷ []) h = ((h, omega arith), tt)
key_groups-IsGroup (a ∷ b ∷ c ∷ d ∷ e ∷ f ∷ encoded) (ha, (hb, (hc, (hd, (he, h))))) =
    (((ha, (hb, (hc, (hd, (he, tt))))), omega arith), key_groups-IsGroup (f ∷ encoded) h)

split_groups :
    (groups : List Bytes)
    → All IsGroup groups
    → (joined (split_on b'-' (join_with b'-' groups)) ≡ joined groups)
      × All (λ s. length s ≤ 5) (split_on b'-' (join_with b'-' groups))
unfolding join_with split_on
split_groups [] h = (refl, (omega arith, tt))
split_groups (s ∷ groups) h =
    rw (split_on-join_with b'-' s groups h.0.0 (All-imp (λ s g. g.0) groups h.1))
      (refl, All-imp (λ s g. g.1) (s ∷ groups) h)

-- The groups that a dash separates in a grouped key have at most five bytes, and one after the other they
-- are the key, if it holds no dash itself.
pub group_key-IsGrouped :
    (encoded : Bytes)
    → Lacks b'-' encoded
    → (joined (split_on b'-' (group_key encoded)) ≡ encoded)
      × All (λ s. length s ≤ 5) (split_on b'-' (group_key encoded))
unfolding group_key
group_key-IsGrouped encoded h =
    let (same, short) = split_groups (key_groups encoded) (key_groups-IsGroup encoded h) in
    (same ∙ joined-key_groups encoded, short)
