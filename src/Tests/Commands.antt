-- ===== src/Tests/Commands.antt =====
-- Export and import of a vault with two keys, into a vault with one.
use myminivault.Prelude.{◌≡◌, refl, [], ◌∷◌, Bytes, codes, bytes_eq, All, Dict, lookup}
use myminivault.Commands.Space.{ascii_space, space2, space3, trim_front, trim_space}
use myminivault.Commands.Export.{keys, sort_strings, render_export}
use myminivault.Commands.Import.{validate_key, import_all}
use myminivault.Commands.RoundTrip.{IsExportable, restored, import_all-render_export}

abbrev exported : Dict Bytes
exported = (codes "TOKEN", codes "it's") ∷ (codes "API", codes "x = y") ∷ []

abbrev target : Dict Bytes
target = (codes "API", codes "old") ∷ []

exported-IsExportable : All IsExportable (keys exported)
unfolding validate_key trim_space trim_front ascii_space space2 space3 bytes_eq keys
exported-IsExportable = ((refl, refl), ((refl, refl), tt))

import_all-render_export_example :
    ((j : Bytes)
      → lookup j (import_all target (render_export exported)).0
        ≡ restored (lookup j exported) (lookup j target))
    × ((import_all target (render_export exported)).1 ≡ sort_strings (keys exported))
import_all-render_export_example = import_all-render_export exported target exported-IsExportable
