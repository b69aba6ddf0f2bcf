-- ===== src/Commands/Fuel.antt =====
-- The fuel of `ParseImportValue` is enough.
use myminivault.Prelude.{
  ℕ, zero, suc, ◌+◌, ◌≤◌, ◌<◌, ◌≡◌, ◌≢◌, refl, Bool, [], ◌∷◌, ◌++◌, reverse, ◌==◌, arith, Bytes,
  length, length-append, drop, length-drop, cut, cut_prefix, Option, none, some, codes, err,
  Bool-cases, inl, inr,
}
use mathlib.Core.List.{reverse-cons}
use myminivault.Commands.Space.{trim_front, trim_space, ascii_space, space2, space3}
use myminivault.Commands.Export.{quote}
use myminivault.Commands.Import.{unterminated, out_of_fuel, parse_quoted, parse_import_value}

length-trim_front :
    (p : ℕ → Bool) (q : ℕ → ℕ → Bool) (r : ℕ → ℕ → ℕ → Bool) (s : Bytes)
    → length (trim_front p q r s) ≤ length s
unfolding trim_front
length-trim_front p q r [] = ground arith
length-trim_front p q r (a ∷ []) = ground arith
length-trim_front p q r (a ∷ b ∷ []) = ground (arith, length-trim_front p q r (b ∷ []))
length-trim_front p q r (a ∷ b ∷ c ∷ s) = ground (
  arith,
  length-trim_front p q r (b ∷ c ∷ s),
  length-trim_front p q r (c ∷ s),
  length-trim_front p q r s,
)

length-reverse : (s : Bytes) → length (reverse s) ≡ length s
length-reverse [] = refl
length-reverse (a ∷ s) =
    rw (reverse-cons a s) (omega (arith, length-append {0} (reverse s) (a ∷ []), length-reverse s))

length-trim_space : (s : Bytes) → length (trim_space s) ≤ length s
unfolding trim_space
length-trim_space s =
    let front = trim_front ascii_space space2 space3 s in
    let back = trim_front ascii_space (λ a b. space2 b a) (λ a b c. space3 c b a) (reverse front) in
    omega (
      arith,
      length-reverse back,
      length-reverse front,
      length-trim_front ascii_space space2 space3 s,
      length-trim_front ascii_space (λ a b. space2 b a) (λ a b c. space3 c b a) (reverse front),
    )

-- What is left after a cut is shorter than `n`.
abbrev LeavesLess : Option (Bytes × Bytes) → ℕ → Type 0
LeavesLess none n = Unit
LeavesLess (some (before, after)) n = length after < n

cut-LeavesLess : (sep : ℕ) (s : Bytes) → LeavesLess (cut sep s) (length s)
unfolding cut
cut-LeavesLess sep [] = tt
cut-LeavesLess sep (c ∷ s) = elim (Bool-cases (c == sep)) [
  | inl e ↦ rw e (omega arith)
  | inr e ↦ rw e (later (cut sep s) (cut-LeavesLess sep s))
]
  where
    later :
        (o : Option (Bytes × Bytes))
        → LeavesLess o (length s)
        → LeavesLess
            (elim o [ none ↦ none | some (before, after) ↦ some (c ∷ before, after) ])
            (length (c ∷ s))
    later none h = tt
    later (some (before, after)) h = omega (arith, h)

-- One round, if every shorter value has enough fuel.
module _ (f : ℕ)
    (again : (parsed v : Bytes) → length v < f → parse_quoted f parsed v ≢ err out_of_fuel)
    (parsed value : Bytes) (h : length value < f) where
  piece_rest :
      (before after : Bytes) (o : Option Bytes)
      → length after < length value
      → elim o [
        | some _ ↦ parse_quoted f (parsed ++ before ++ quote ∷ []) (drop 2 after)
        | none ↦ parse_quoted f (parsed ++ before) (trim_space after)
      ]
        ≢ err out_of_fuel
  piece_rest before after none k =
      again (parsed ++ before) (trim_space after) (omega (arith, h, k, length-trim_space after))
  piece_rest before after (some x) k =
      again (parsed ++ before ++ quote ∷ []) (drop 2 after)
        (omega (arith, h, k, length-drop {0} 2 after))

  quoted_rest :
      (o : Option (Bytes × Bytes))
      → LeavesLess o (length value)
      → elim o [
        | none ↦ err unterminated
        | some (before, after) ↦ elim (cut_prefix after (codes "\\''")) [
          | some _ ↦ parse_quoted f (parsed ++ before ++ quote ∷ []) (drop 2 after)
          | none ↦ parse_quoted f (parsed ++ before) (trim_space after)
        ]
      ]
        ≢ err out_of_fuel
  quoted_rest none k = λ e. ground arith
  quoted_rest (some (before, after)) k = piece_rest before after (cut_prefix after (codes "\\''")) k

parse_quoted-fuelled :
    (f : ℕ) (parsed value : Bytes)
    → length value < f
    → parse_quoted f parsed value ≢ err out_of_fuel
unfolding parse_quoted
parse_quoted-fuelled zero parsed value h = ground arith
parse_quoted-fuelled (suc f) parsed [] h = ground arith
parse_quoted-fuelled (suc f) parsed (c ∷ value) h = elim (Bool-cases (c == quote)) [
  | inl e ↦ rw e (
      quoted_rest f (parse_quoted-fuelled f) parsed value (omega (arith, h)) (cut quote value)
        (cut-LeavesLess quote value))
  | inr e ↦ rw e (λ k. ground arith)
]

-- No value makes `ParseImportValue` run out of fuel: it returns the text or one of its two errors.
pub parse_import_value-fuelled : (v : Bytes) → parse_import_value v ≢ err out_of_fuel
unfolding parse_import_value
parse_import_value-fuelled [] = ground arith
parse_import_value-fuelled (c ∷ v) =
    ground (arith, parse_quoted-fuelled (length (c ∷ v) + 1) [] (c ∷ v) (omega arith))
