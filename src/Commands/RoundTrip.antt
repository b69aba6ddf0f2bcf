-- ===== src/Commands/RoundTrip.antt =====
-- An exported vault is restored by an import of the export.
use myminivault.Prelude.{
  ◌≡◌, refl, ◌∙◌, ap, Option, none, some, ok, List, [], ◌∷◌, ◌++◌, map, arith, if◌then◌else◌, Bytes,
  bytes_eq_iff, All, All-imp, Dict, lookup, insert, lookup-insert, or_else,
}
use mathlib.Core.List.{append-nil, append_assoc}
use myminivault.Commands.Space.{trim_space}
use myminivault.Commands.Export.{keys, sort_strings, export_line, render_export}
use myminivault.Commands.Import.{store, validate_key, import_lines, import_all}
use myminivault.Commands.Split.{IsPlain, split_import_lines-export_lines}
use myminivault.Commands.Line.{validate_key-IsClean, import_line-export_line}
use myminivault.Commands.Sorting.{has, has-sort_strings, has-keys, All-sort_strings}

-- A key that the vault accepts and that no trimming changes.
abbrev pub IsExportable : Bytes → Type 0
IsExportable k = (validate_key k ≡ ok tt) × (trim_space k ≡ k)

IsExportable-IsPlain : (k : Bytes) → IsExportable k → IsPlain k
IsExportable-IsPlain k h = All-imp (λ c p. (p.0, p.1)) k (validate_key-IsClean k h.0)

-- The vault after the keys `ks` of `m` are stored in turn.
stored : Dict Bytes → List Bytes → Dict Bytes → Dict Bytes
stored m [] vault = vault
stored m (k ∷ ks) vault = stored m ks (insert k (or_else (lookup k m) []) vault)

lookup-stored :
    (m : Dict Bytes) (ks : List Bytes) (vault : Dict Bytes) (j : Bytes)
    → lookup j (stored m ks vault)
      ≡ (if has j ks then some (or_else (lookup j m) []) else lookup j vault)
unfolding stored
lookup-stored m [] vault j = refl
lookup-stored m (k ∷ ks) vault j =
    lookup-stored m ks (insert k (or_else (lookup k m) []) vault) j
    ∙ ground (arith, lookup-insert k j (or_else (lookup k m) []) vault, bytes_eq_iff k j)

import_lines-export :
    (m : Dict Bytes) (ks : List Bytes) (vault : Dict Bytes) (imported : List Bytes)
    → All IsExportable ks
    → import_lines (vault, imported) (map (export_line m) ks) ≡ (stored m ks vault, imported ++ ks)
unfolding import_lines stored
import_lines-export m [] vault imported h = rw append-nil
import_lines-export m (k ∷ ks) vault imported h =
    ap (λ e. import_lines (store e (vault, imported)) (map (export_line m) ks))
      (import_line-export_line m k h.0.0 h.0.1)
    ∙ import_lines-export m ks (insert k (or_else (lookup k m) []) vault) (imported ++ k ∷ []) h.1
    ∙ simp append_assoc

-- `keys` of what is in the export, by the value that the vault has for each.
abbrev pub restored : Option Bytes → Option Bytes → Option Bytes
restored none old = old
restored (some v) old = some v

module _ (m vault : Dict Bytes) (h : All IsExportable (keys m)) where
  import_all-render :
      import_all vault (render_export m)
      ≡ (stored m (sort_strings (keys m)) vault, sort_strings (keys m))
  unfolding import_all render_export
  import_all-render =
      ap (λ l. import_lines (vault, []) l)
        (split_import_lines-export_lines m (sort_strings (keys m))
          (All-sort_strings IsPlain (keys m) (All-imp IsExportable-IsPlain (keys m) h)))
      ∙ import_lines-export m (sort_strings (keys m)) vault []
          (All-sort_strings IsExportable (keys m) h)

  -- The import of an export of `m` into a vault sets each key of `m` to its value, byte for byte,
  -- and leaves every other key of the vault alone; it reports the keys of `m` in sorted order. The
  -- keys of `m` must pass `ValidateKey` and have no white space around them.
  pub import_all-render_export :
      ((j : Bytes)
        → lookup j (import_all vault (render_export m)).0 ≡ restored (lookup j m) (lookup j vault))
      × ((import_all vault (render_export m)).1 ≡ sort_strings (keys m))
  import_all-render_export = rw import_all-render (look, refl)
    where
      look :
          (j : Bytes)
          → lookup j (stored m (sort_strings (keys m)) vault)
            ≡ restored (lookup j m) (lookup j vault)
      look j = ground (
        arith,
        lookup-stored m (sort_strings (keys m)) vault j,
        has-sort_strings j (keys m),
        has-keys j m,
      )
