-- ===== src/Commands/Split.antt =====
-- `SplitImportLines` cuts an export back into the lines that `RenderExport` wrote.
use mathlib.Core.List.{append_assoc, append-nil}
use myminivault.Prelude.{
  ℕ, ◌≡◌, ◌≢◌, refl, ap, ◌∙◌, inl, inr, Bool, true, false, Bool-cases, List, [], ◌∷◌, ◌++◌, map,
  ◌==◌, arith, Bytes, All, All-append, Dict, codes, lookup, or_else,
}
use myminivault.Commands.Export.{
  quote, escaped_quote, escape_quotes, shell_quote, export_line, export_lines,
}
use myminivault.Commands.Import.{emit, split_byte, split_from, split_import_lines}

-- A byte that does not open an escaped quote is taken by the `switch` alone.
split_from-plain :
    (c : ℕ) (s current : Bytes) (quoted : Bool)
    → c ≢ quote
    → split_from current quoted (c ∷ s)
      ≡ emit
          (split_byte c current quoted).0
          (split_from (split_byte c current quoted).1 (split_byte c current quoted).2 s)
unfolding split_from
split_from-plain c [] current quoted h = refl
split_from-plain c (x ∷ []) current quoted h = refl
split_from-plain c (x ∷ y ∷ []) current quoted h = refl
split_from-plain c (x ∷ y ∷ z ∷ s) current true h = ground arith
split_from-plain c (x ∷ y ∷ z ∷ s) current false h = refl

-- Inside quotes every other byte goes to the line.
split_from-quoted :
    (c : ℕ) (s current : Bytes)
    → c ≢ quote
    → split_from current true (c ∷ s) ≡ split_from (current ++ c ∷ []) true s
split_from-quoted c s current h =
    split_from-plain c s current true h ∙ unfold split_byte in ground arith

-- Outside quotes so does every byte but a newline.
split_from-bare :
    (c : ℕ) (s current : Bytes)
    → c ≢ quote
    → c ≢ 10
    → split_from current false (c ∷ s) ≡ split_from (current ++ c ∷ []) false s
split_from-bare c s current h k =
    split_from-plain c s current false h ∙ unfold split_byte in ground arith

split_from-close :
    (s current : Bytes)
    → split_from current true (quote ∷ 10 ∷ s) ≡ (current ++ quote ∷ []) ∷ split_from [] false s
unfolding split_from
split_from-close [] current = refl
split_from-close (x ∷ []) current = refl
split_from-close (x ∷ y ∷ []) current = refl
split_from-close (x ∷ y ∷ z ∷ s) current = refl

split_from-open :
    (s current : Bytes)
    → split_from current false (quote ∷ s) ≡ split_from (current ++ quote ∷ []) true s
unfolding split_from
split_from-open [] current = refl
split_from-open (x ∷ []) current = refl
split_from-open (x ∷ y ∷ []) current = refl
split_from-open (x ∷ y ∷ z ∷ s) current = refl

split_from-escaped_quote :
    (s current : Bytes)
    → split_from current true (escaped_quote ++ s) ≡ split_from (current ++ escaped_quote) true s
unfolding split_from
split_from-escaped_quote s current = refl

split_from-nil : split_from [] false [] ≡ []
unfolding split_from
split_from-nil = refl

-- The text of a quoted value stays in one line, its newlines and quotes included.
split_from-escape_quotes :
    (v s current : Bytes)
    → split_from current true (escape_quotes v ++ quote ∷ 10 ∷ s)
      ≡ (current ++ (escape_quotes v ++ quote ∷ [])) ∷ split_from [] false s
unfolding escape_quotes
split_from-escape_quotes [] s current = split_from-close s current
split_from-escape_quotes (c ∷ v) s current = elim (Bool-cases (c == quote)) [
  | inl e ↦ rw e (
      split_from-escaped_quote (escape_quotes v ++ quote ∷ 10 ∷ s) current
      ∙ split_from-escape_quotes v s (current ++ escaped_quote)
      ∙ simp append_assoc)
  | inr e ↦ rw e (
      split_from-quoted c (escape_quotes v ++ quote ∷ 10 ∷ s) current (ground arith)
      ∙ split_from-escape_quotes v s (current ++ c ∷ [])
      ∙ simp append_assoc)
]

-- Bytes that are neither quotes nor newlines stay in the line.
split_from-append :
    (p s current : Bytes)
    → All (λ c. (c ≢ quote) × (c ≢ 10)) p
    → split_from current false (p ++ s) ≡ split_from (current ++ p) false s
split_from-append [] s current h = rw append-nil
split_from-append (c ∷ p) s current h =
    split_from-bare c (p ++ s) current h.0.0 h.0.1
    ∙ split_from-append p s (current ++ c ∷ []) h.1
    ∙ simp append_assoc

split_from-shell_quote :
    (v s current : Bytes)
    → split_from current false (shell_quote v ++ 10 ∷ s)
      ≡ (current ++ shell_quote v) ∷ split_from [] false s
unfolding shell_quote
split_from-shell_quote [] s current =
    split_from-open (quote ∷ 10 ∷ s) current
    ∙ split_from-close s (current ++ quote ∷ [])
    ∙ simp append_assoc
split_from-shell_quote (c ∷ v) s current = rw append_assoc (
    split_from-open (escape_quotes (c ∷ v) ++ quote ∷ 10 ∷ s) current
    ∙ split_from-escape_quotes (c ∷ v) s (current ++ quote ∷ [])
    ∙ simp append_assoc)

-- A byte that a key line may hold outside the value.
abbrev pub IsPlain : Bytes → Type 0
IsPlain = All (λ c. (c ≢ quote) × (c ≢ 10))

line_head : Bytes → Bytes
line_head k = codes "export " ++ (k ++ codes "=")

line_head-IsPlain : (k : Bytes) → IsPlain k → IsPlain (line_head k)
unfolding line_head
line_head-IsPlain k h =
    All-append (λ c. (c ≢ quote) × (c ≢ 10)) (codes "export ") (k ++ codes "=") (omega arith)
      (All-append (λ c. (c ≢ quote) × (c ≢ 10)) k (codes "=") h (omega arith))

split_from-export_line :
    (m : Dict Bytes) (k s : Bytes)
    → IsPlain k
    → split_from [] false (export_line m k ++ 10 ∷ s) ≡ export_line m k ∷ split_from [] false s
unfolding export_line line_head
split_from-export_line m k s h =
    let v = or_else (lookup k m) [] in
    ap (λ t. split_from [] false t) (simp append_assoc)
    ∙ split_from-append (line_head k) (shell_quote v ++ 10 ∷ s) [] (line_head-IsPlain k h)
    ∙ split_from-shell_quote v s (line_head k)
    ∙ ap (λ t. t ∷ split_from [] false s) (simp append_assoc)

split_from-export_lines :
    (m : Dict Bytes) (ks : List Bytes)
    → All IsPlain ks
    → split_from [] false (export_lines m ks) ≡ map (export_line m) ks
unfolding export_lines
split_from-export_lines m [] h = split_from-nil
split_from-export_lines m (k ∷ ks) h =
    split_from-export_line m k (export_lines m ks) h.0
    ∙ ap (λ l. export_line m k ∷ l) (split_from-export_lines m ks h.1)

-- The lines of an export are the lines that were written, for keys with no quote and no newline.
pub split_import_lines-export_lines :
    (m : Dict Bytes) (ks : List Bytes)
    → All IsPlain ks
    → split_import_lines (export_lines m ks) ≡ map (export_line m) ks
unfolding split_import_lines
split_import_lines-export_lines m ks h = split_from-export_lines m ks h
