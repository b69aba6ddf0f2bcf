-- ===== src/Commands/Export.antt =====
-- `ShellQuote` and `RenderExport` of internal/commands/commands.go.
use myminivault.Prelude.{
  ℕ, Bool, true, false, List, [], ◌∷◌, ◌++◌, map, ltb, ◌==◌, if◌then◌else◌, Bytes, codes, Dict,
  lookup, or_else,
}

-- The order of `sort.Strings`: byte by byte, a prefix first.
unfoldable pub bytes_le : Bytes → Bytes → Bool
bytes_le [] ys = true
bytes_le (x ∷ xs) [] = false
bytes_le (x ∷ xs) (y ∷ ys) =
    let rest = bytes_le xs ys in if ltb x y then true else if x == y then rest else false

unfoldable pub insert_key : Bytes → List Bytes → List Bytes
insert_key k [] = k ∷ []
insert_key k (j ∷ ks) = if bytes_le k j then k ∷ j ∷ ks else j ∷ insert_key k ks

-- `sort.Strings`
unfoldable pub sort_strings : List Bytes → List Bytes
sort_strings [] = []
sort_strings (k ∷ ks) = insert_key k (sort_strings ks)

abbrev pub quote : ℕ
quote = 39

-- What `ShellQuote` puts in place of a single quote: close, escaped quote, open.
abbrev pub escaped_quote : Bytes
escaped_quote = codes "'\\''"

-- `strings.ReplaceAll(value, "'", "'\\''")`
unfoldable pub escape_quotes : Bytes → Bytes
escape_quotes [] = []
escape_quotes (c ∷ s) =
    let rest = escape_quotes s in if c == quote then escaped_quote ++ rest else c ∷ rest

unfoldable pub shell_quote : Bytes → Bytes
shell_quote [] = codes "''"
shell_quote (c ∷ s) = quote ∷ (escape_quotes (c ∷ s) ++ quote ∷ [])

unfoldable pub keys {ℓ} : {V : Type ℓ} → Dict V → List Bytes
keys m = map (λ e. e.0) m

-- `fmt.Fprintf(&output, "export %s=%s\n", key, ShellQuote(vault[key]))`
unfoldable pub export_line : Dict Bytes → Bytes → Bytes
export_line vault key =
    codes "export " ++ (key ++ (codes "=" ++ shell_quote (or_else (lookup key vault) [])))

unfoldable pub export_lines : Dict Bytes → List Bytes → Bytes
unfolding export_line
export_lines vault [] = []
export_lines vault (k ∷ ks) = export_line vault k ++ (10 ∷ export_lines vault ks)

unfoldable pub render_export : Dict Bytes → Bytes
render_export vault = export_lines vault (sort_strings (keys vault))
