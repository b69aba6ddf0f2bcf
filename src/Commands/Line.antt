-- ===== src/Commands/Line.antt =====
-- One exported line is read back as its key and value.
use mathlib.Core.List.{append_assoc, reverse-append, reverse-reverse}
use myminivault.Prelude.{
  ℕ, ◌≡◌, ◌≢◌, refl, ap, ◌∙◌, ◌⊎◌, inl, inr, Bool, false, [], ◌∷◌, ◌++◌, ◌==◌, arith, reverse, some,
  ok, Bytes, All, All-imp, any, any-eq-false, Dict, codes, cut, cut-append, cut_prefix, lookup,
  or_else, contains_any,
}
use myminivault.Commands.Space.{ascii_space, space2, space3, trim_front, trim_space}
use myminivault.Commands.Export.{quote, escape_quotes, shell_quote, export_line}
use myminivault.Commands.Import.{
  forbidden, validate_key, import_entry, import_line, parse_import_value,
}
use myminivault.Commands.Quote.{parse_import_value-shell_quote}

module _ (p : ℕ → Bool) (q : ℕ → ℕ → Bool) (r : ℕ → ℕ → ℕ → Bool) where
  -- Nothing is trimmed in front of a byte that starts no space.
  trim_front-solid :
      (a : ℕ) (s : Bytes)
      → p a ≡ false
      → ((b : ℕ) → q a b ≡ false)
      → ((b c : ℕ) → r a b c ≡ false)
      → trim_front p q r (a ∷ s) ≡ a ∷ s
  unfolding trim_front
  trim_front-solid a [] hp hq hr = rw hp
  trim_front-solid a (b ∷ []) hp hq hr = rw hp (rw (hq b))
  trim_front-solid a (b ∷ c ∷ s) hp hq hr = rw hp (rw (hq b) (rw (hr b c)))

-- A text that ends in a quote, and starts with one or with an `e`, has no space around it.
trim_space-quoted :
    (a : ℕ) (s : Bytes)
    → (a ≡ quote) ⊎ (a ≡ b'e')
    → trim_space (a ∷ (s ++ quote ∷ [])) ≡ a ∷ (s ++ quote ∷ [])
unfolding trim_space
trim_space-quoted a s h =
    rw
      (trim_front-solid ascii_space space2 space3 a (s ++ quote ∷ []) (ground arith)
        (λ b. ground arith) (λ b c. ground arith))
      (ap reverse (trim_back (reverse (a ∷ s)) (reverse-append (a ∷ s) (quote ∷ [])))
        ∙ reverse-reverse (a ∷ (s ++ quote ∷ [])))
  where
    trim_back :
        (u : Bytes)
        → reverse (a ∷ (s ++ quote ∷ [])) ≡ quote ∷ u
        → trim_front ascii_space
            (λ x y. space2 y x)
            (λ x y z. space3 z y x)
            (reverse (a ∷ (s ++ quote ∷ [])))
          ≡ reverse (a ∷ (s ++ quote ∷ []))
    trim_back u e = rw e (
        trim_front-solid ascii_space (λ x y. space2 y x) (λ x y z. space3 z y x) quote u refl
          (λ b. ground arith) (λ b c. ground arith))

shell_quote_ends : (v : Bytes) → (w : Bytes) × (shell_quote v ≡ quote ∷ (w ++ quote ∷ []))
unfolding shell_quote
shell_quote_ends [] = ([], refl)
shell_quote_ends (c ∷ v) = (escape_quotes (c ∷ v), refl)

-- What an accepted key does not hold.
abbrev pub IsClean : ℕ → Type 0
IsClean c = (c ≢ quote) × (c ≢ 10) × (c ≢ b'=')

pub validate_key-IsClean : (k : Bytes) → validate_key k ≡ ok tt → All IsClean k
unfolding validate_key
validate_key-IsClean k h =
    All-imp (λ c f. ground arith) k
      (any-eq-false (λ c. any (λ d. c == d) forbidden) k (unfold contains_any in ground arith))

import_entry_parts :
    (line before after key value raw : Bytes)
    → cut b'=' line ≡ some (before, after)
    → trim_space before ≡ key
    → trim_space after ≡ raw
    → parse_import_value raw ≡ ok value
    → validate_key key ≡ ok tt
    → import_entry line ≡ some (key, value)
unfolding import_entry
import_entry_parts line before after key value raw h₁ h₂ h₃ h₄ h₅ = ground arith

trim_space-shell_quote : (v : Bytes) → trim_space (shell_quote v) ≡ shell_quote v
trim_space-shell_quote v =
    let (w, e) = shell_quote_ends v in rw e (trim_space-quoted quote w (inl refl))

export_line_ends :
    (m : Dict Bytes) (k : Bytes) → (w : Bytes) × (export_line m k ≡ b'e' ∷ (w ++ quote ∷ []))
unfolding export_line
export_line_ends m k =
    let (w, e) = shell_quote_ends (or_else (lookup k m) []) in
    (codes "xport " ++ (k ++ b'=' ∷ quote ∷ w), rw e (simp append_assoc))

trim_space-export_line :
    (m : Dict Bytes) (k : Bytes) → trim_space (export_line m k) ≡ export_line m k
trim_space-export_line m k =
    let (w, e) = export_line_ends m k in rw e (trim_space-quoted b'e' w (inr refl))

module _ (m : Dict Bytes) (k : Bytes) (valid : validate_key k ≡ ok tt)
    (solid : trim_space k ≡ k) where
  import_entry-export_line :
      import_entry (k ++ (codes "=" ++ shell_quote (or_else (lookup k m) [])))
      ≡ some (k, or_else (lookup k m) [])
  import_entry-export_line =
      let v = or_else (lookup k m) [] in
      import_entry_parts (k ++ (codes "=" ++ shell_quote v)) k (shell_quote v) k v (shell_quote v)
        (cut-append b'=' k (shell_quote v) (All-imp (λ c h. h.2) k (validate_key-IsClean k valid)))
        solid (trim_space-shell_quote v) (parse_import_value-shell_quote v) valid

  import_line-export_line_trimmed :
      trim_space (export_line m k) ≡ export_line m k
      → import_line (export_line m k) ≡ some (k, or_else (lookup k m) [])
  unfolding import_line
  import_line-export_line_trimmed e =
      rw e (unfold export_line cut_prefix in import_entry-export_line)

  -- The loop of `Import` reads an exported line back as its key and value.
  pub import_line-export_line : import_line (export_line m k) ≡ some (k, or_else (lookup k m) [])
  import_line-export_line = import_line-export_line_trimmed (trim_space-export_line m k)
