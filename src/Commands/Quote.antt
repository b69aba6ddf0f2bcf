-- ===== src/Commands/Quote.antt =====
-- `ParseImportValue` reads back what `ShellQuote` writes.
use mathlib.Core.List.{append_assoc, append-nil}
use myminivault.Prelude.{
  ℕ, zero, suc, ◌+◌, ◌≤◌, ◌≡◌, ◌≢◌, refl, ap, ◌∙◌, sym, ==_iff, inl, inr, Bool-cases, [], ◌∷◌, ◌++◌,
  ◌==◌, arith, Bytes, All, All-append, cut-append, length, length-append, ok,
}
use myminivault.Commands.Export.{quote, escape_quotes, shell_quote}
use myminivault.Commands.Import.{parse_quoted, parse_import_value}

length-le-escape_quotes : (v : Bytes) → length v ≤ length (escape_quotes v)
unfolding escape_quotes
length-le-escape_quotes [] = omega arith
length-le-escape_quotes (c ∷ v) = ground (arith, length-le-escape_quotes v)

-- One quoted piece after another: `before` is the part of the piece that holds no quote.
parse_quoted-escape :
    (v : Bytes) (f : ℕ) (parsed before : Bytes)
    → length v + 2 ≤ f
    → All (λ c. c ≢ quote) before
    → parse_quoted f parsed (quote ∷ (before ++ (escape_quotes v ++ quote ∷ [])))
      ≡ ok (parsed ++ (before ++ v))
unfolding parse_quoted escape_quotes
parse_quoted-escape v zero parsed before h free = absurd (omega arith)
parse_quoted-escape v (suc zero) parsed before h free = absurd (omega arith)
parse_quoted-escape [] (suc (suc f)) parsed before h free =
    rw (cut-append quote before [] free) (rw append-nil)
parse_quoted-escape (c ∷ v) (suc (suc f)) parsed before h free = elim (Bool-cases (c == quote)) [
  | inl e ↦ rw e (
      rw (cut-append quote before (92 ∷ quote ∷ quote ∷ (escape_quotes v ++ quote ∷ [])) free) (
        parse_quoted-escape v (suc f) (parsed ++ before ++ quote ∷ []) [] (omega arith) tt
        ∙ rw (← (==_iff c quote).0 e) (simp append_assoc)))
  | inr e ↦ rw e (
      ap (λ t. parse_quoted (suc (suc f)) parsed (quote ∷ t))
        (sym (append_assoc before (c ∷ []) (escape_quotes v ++ quote ∷ [])))
      ∙ parse_quoted-escape v (suc (suc f)) parsed (before ++ c ∷ []) (omega arith)
          (All-append (λ d. d ≢ quote) before (c ∷ []) free (ground arith, tt))
      ∙ simp append_assoc)
]

-- A value that is quoted for export is read back unchanged, whatever bytes it holds.
pub parse_import_value-shell_quote : (v : Bytes) → parse_import_value (shell_quote v) ≡ ok v
unfolding parse_import_value shell_quote
parse_import_value-shell_quote [] = refl
parse_import_value-shell_quote (c ∷ v) =
    parse_quoted-escape (c ∷ v) (length (shell_quote (c ∷ v)) + 1) [] []
      (omega (
        arith,
        length-append {0} (escape_quotes (c ∷ v)) (quote ∷ []),
        length-le-escape_quotes (c ∷ v),
      ))
      tt
