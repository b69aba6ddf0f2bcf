-- ===== src/Commands/Import.antt =====
-- `ValidateKey`, `SplitImportLines`, `ParseImportValue` and `Import` of internal/commands/commands.go.
use myminivault.Prelude.{
  ℕ, ◌+◌, zero, suc, Bool, false, not, ◌&&◌, List, [], ◌∷◌, ◌++◌, Option, none, some, ltb, ◌==◌,
  if◌then◌else◌, Bytes, codes, contains_any, cut_prefix, cut, length, drop, is_empty, is_some,
  Result, ok, err, fail_if, ◌>>◌, Dict, insert, reverse, or_else,
}
use myminivault.Commands.Space.{trim_space}
use myminivault.Commands.Export.{quote, escaped_quote}

pub data KeyError : Type 0 where
  empty_key too_long bad_characters : KeyError

-- A blank, \t, \n, \r, both quotes, the backslash and = : ; and the comma.
abbrev pub forbidden : Bytes
forbidden = 32 ∷ 9 ∷ 10 ∷ 13 ∷ 34 ∷ quote ∷ 92 ∷ codes "=:;,"

unfoldable pub validate_key : Bytes → Result KeyError (Unit {0})
unfolding contains_any
validate_key key = do
  fail_if (length key == 0) empty_key
  fail_if (ltb 255 (length key)) too_long
  fail_if (contains_any key forbidden) bad_characters
  ok tt

-- The `switch` of `SplitImportLines` on one byte: a line that is complete, the builder and the
-- flag `inSingleQuote`.
unfoldable pub split_byte : ℕ → Bytes → Bool → Option Bytes × Bytes × Bool
split_byte c current quoted =
    if c == quote
    then (none, current ++ c ∷ [], not quoted)
    else if c == 10
    then (if quoted then (none, current ++ c ∷ [], quoted) else (some current, [], quoted))
    else (none, current ++ c ∷ [], quoted)

abbrev pub emit : Option Bytes → List Bytes → List Bytes
emit none lines = lines
emit (some line) lines = line ∷ lines

-- The loop of `SplitImportLines` on the bytes from `content[i]` on. An escaped quote needs four.
unfoldable pub split_from : Bytes → Bool → Bytes → List Bytes
unfolding split_byte
split_from current quoted (a ∷ b ∷ c ∷ d ∷ s) =
    let escaped = split_from (current ++ escaped_quote) quoted s in
    let (line, current', quoted') = split_byte a current quoted in
    let plain = emit line (split_from current' quoted' (b ∷ c ∷ d ∷ s)) in
    if quoted && a == quote && b == 92 && c == quote && d == quote then escaped else plain
split_from current quoted (a ∷ s) =
    let (line, current', quoted') = split_byte a current quoted in
    emit line (split_from current' quoted' s)
split_from current quoted [] = if is_empty current then [] else current ∷ []

unfoldable pub split_import_lines : Bytes → List Bytes
unfolding split_from
split_import_lines content = split_from [] false content

pub data ValueError : Type 0 where
  unsupported unterminated out_of_fuel : ValueError

-- The loop of `ParseImportValue`; each round takes at least the opening quote, so one more than the
-- length is enough fuel.
unfoldable pub parse_quoted : ℕ → Bytes → Bytes → Result ValueError Bytes
unfolding cut cut_prefix trim_space
parse_quoted zero parsed value = err out_of_fuel
parse_quoted (suc f) parsed [] = ok parsed
parse_quoted (suc f) parsed (c ∷ value) =
    if c == quote
    then elim (cut quote value) [
      | none ↦ err unterminated
      | some (before, after) ↦ elim (cut_prefix after (codes "\\''")) [
        | some _ ↦ parse_quoted f (parsed ++ before ++ quote ∷ []) (drop 2 after)
        | none ↦ parse_quoted f (parsed ++ before) (trim_space after)
      ]
    ]
    else err unsupported

-- Trims the bytes `c` from the front.
unfoldable pub trim_byte : ℕ → Bytes → Bytes
trim_byte c [] = []
trim_byte c (a ∷ s) = let rest = trim_byte c s in if a == c then rest else a ∷ s

unfoldable pub parse_import_value : Bytes → Result ValueError Bytes
unfolding parse_quoted trim_byte
parse_import_value [] = ok []
parse_import_value (c ∷ value) =
    if c == quote
    then parse_quoted (length (c ∷ value) + 1) [] (c ∷ value)
    else ok (reverse (trim_byte 34 (reverse (trim_byte 34 (c ∷ value)))))

-- `strings.SplitN(line, "=", 2)` and what follows it in the loop of `Import`.
unfoldable pub import_entry : Bytes → Option (Bytes × Bytes)
import_entry line = elim (cut b'=' line) [
  | none ↦ none
  | some (before, after) ↦
      let key = trim_space before in
      elim (parse_import_value (trim_space after)) [
        | err _ ↦ none
        | ok value ↦ elim (validate_key key) [ err _ ↦ none | ok _ ↦ some (key, value) ]
      ]
]

-- One round of the loop of `Import`: the entry to store, or `none` for `continue`.
unfoldable pub import_line : Bytes → Option (Bytes × Bytes)
import_line raw =
    let line = trim_space raw in
    if is_empty line
    then none
    else if is_some (cut_prefix line (codes "#"))
    then none
    else import_entry (or_else (cut_prefix line (codes "export ")) line)

abbrev pub store : Option (Bytes × Bytes) → Dict Bytes × List Bytes → Dict Bytes × List Bytes
store none acc = acc
store (some (key, value)) (vault, imported) = (insert key value vault, imported ++ key ∷ [])

unfoldable pub import_lines : Dict Bytes × List Bytes → List Bytes → Dict Bytes × List Bytes
import_lines acc [] = acc
import_lines acc (line ∷ lines) = import_lines (store (import_line line) acc) lines

-- `Import`: the vault after the import, and the keys in the order of their lines.
unfoldable pub import_all : Dict Bytes → Bytes → Dict Bytes × List Bytes
import_all vault content = import_lines (vault, []) (split_import_lines content)
