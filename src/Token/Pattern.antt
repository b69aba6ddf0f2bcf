-- ===== src/Token/Pattern.antt =====
-- `MatchKeyPattern` of internal/token/token.go: a key pattern as a regular expression.
pub mod Glob
use myminivault.Prelude.{
  Bool, true, false, not, ◌&&◌, ◌||◌, ◌==◌, ◌++◌, [], ◌∷◌, Option, some, Bytes, codes, bytes_eq,
  contains_any, if◌then◌else◌,
}

-- `regexp.QuoteMeta`
unfoldable pub quote_meta : Bytes → Bytes
quote_meta [] = []
quote_meta (c ∷ s) =
    let rest = quote_meta s in
    if contains_any (c ∷ []) (codes "\\.+*?()|[]{}^$") then b'\\' ∷ c ∷ rest else c ∷ rest

-- `strings.ReplaceAll(s, "\\*", ".*")`
unfoldable pub replace_stars : Bytes → Bytes
replace_stars [] = []
replace_stars (c ∷ []) = c ∷ []
replace_stars (c ∷ d ∷ s) = elim ((c == b'\\') && (d == b'*')) [
  | true ↦ codes ".*" ++ replace_stars s
  | false ↦ c ∷ replace_stars (d ∷ s)
]

unfoldable pub regex_pattern : Bytes → Bytes
regex_pattern pattern = b'^' ∷ (replace_stars (quote_meta pattern) ++ codes "$")

-- `match_string` is `regexp.MatchString`, which answers `none` where the pattern does not compile.
unfoldable pub match_key_pattern : (Bytes → Bytes → Option Bool) → Bytes → Bytes → Option Bool
match_key_pattern match_string pattern key =
    if bytes_eq pattern (codes "*") then some true else match_string (regex_pattern pattern) key
