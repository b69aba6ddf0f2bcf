-- ===== src/Session/Handlers.antt =====
-- cmd/vault/commands.go: the handlers of the commands on keys and values, and their options. What they
-- print besides keys and values is left out. `args` is `os.Args` from the command's arguments on.
pub mod Options
use myminivault.Prelude.{
  Bool, true, false, not, ◌&&◌, ◌||◌, List, [], ◌∷◌, Option, none, some, Bytes, codes, bytes_eq,
  is_empty, contains_text, cut_prefix, is_some, if◌then◌else◌, Dict, lookup, insert, erase, entries,
  Result, ok, err, map,
}
use myminivault.Prelude.Int.{ℤ, pos, ltb_ℤ}
use myminivault.Commands.Space.{trim_space}
use myminivault.Commands.Import.{validate_key, import_all}
use myminivault.Commands.Export.{keys}
use myminivault.Token.Execute.Request.{read_value_from_stdin}

abbrev is_valid : Bytes → Bool
is_valid key = elim (validate_key key) [ ok _ ↦ true | err _ ↦ false ]

-- The value of `handleSetCommand`, from the argument or from stdin.
unfoldable pub set_value : Bytes → Option Bytes → Option Bytes
set_value value stdin =
    if bytes_eq value (codes "--stdin") then read_value_from_stdin stdin else some value

-- `handleSetCommand`: the values afterwards, and the key that was set.
unfoldable pub handle_set_command :
    List Bytes → Option Bytes → Option (Dict Bytes) → Option (Dict Bytes) × Option Bytes
handle_set_command args stdin none = (none, none)
handle_set_command (key ∷ value ∷ []) stdin (some vault) =
    if is_valid key
    then elim (set_value value stdin) [
      | none ↦ (some vault, none)
      | some v ↦ (some (insert key v vault), some key)
    ]
    else (some vault, none)
handle_set_command _ stdin (some vault) = (some vault, none)

-- `handleGetCommand`: the value that is shown.
unfoldable pub handle_get_command : List Bytes → Option (Dict Bytes) → Option Bytes
handle_get_command (key ∷ flag ∷ []) vault =
    if bytes_eq flag (codes "--show") then lookup key (entries vault) else none
handle_get_command _ vault = none

-- The key that `executePasswordCommand` marks as deleted, and `handleDeleteCommand`.
unfoldable pub deleted_key : List Bytes → Option (Dict Bytes) → Option Bytes
deleted_key (key ∷ []) vault = if is_some (lookup key (entries vault)) then some key else none
deleted_key _ vault = none

unfoldable pub handle_delete_command : List Bytes → Option (Dict Bytes) → Option (Dict Bytes)
handle_delete_command (key ∷ []) none = none
handle_delete_command (key ∷ []) (some vault) =
    if is_some (lookup key vault) then some (erase key vault) else some vault
handle_delete_command _ vault = vault

unfoldable pub handle_list_command : Option (Dict Bytes) → List Bytes
handle_list_command vault = keys (entries vault)

abbrev found_in : (Bytes → Bytes) → Bytes → Dict Bytes → Dict Bytes
found_in to_lower pattern [] = []
found_in to_lower pattern ((key, value) ∷ vault) =
    let rest = found_in to_lower pattern vault in
    if contains_text (to_lower key) pattern then (key, value) ∷ rest else rest

-- `handleSearchCommand`: the pairs that are shown. `to_lower` is `strings.ToLower`.
unfoldable pub handle_search_command :
    (Bytes → Bytes) → List Bytes → Option (Dict Bytes) → Dict Bytes
handle_search_command to_lower (pattern ∷ flag ∷ []) vault =
    if bytes_eq flag (codes "--show")
    then found_in to_lower (to_lower pattern) (entries vault)
    else []
handle_search_command to_lower _ vault = []

-- `handleClearCommand`, from the line that is read.
unfoldable pub handle_clear_command :
    (Bytes → Bytes) → Bytes → Option (Dict Bytes) → Option (Dict Bytes)
handle_clear_command to_lower confirm vault =
    if bytes_eq (trim_space (to_lower confirm)) (codes "yes") then some [] else vault

-- `handleImportCommand`, from the content of the file, `none` where it cannot be read. The outer `none`
-- is the panic of a write to a nil map.
unfoldable pub handle_import_command :
    List Bytes → Option Bytes → Option (Dict Bytes) → Option (Option (Dict Bytes) × List Bytes)
handle_import_command (path ∷ []) (some content) (some vault) =
    let (vault', imported) = import_all vault content in some (some vault', imported)
handle_import_command (path ∷ []) (some content) none =
    if is_empty (import_all [] content).1 then some (none, []) else none
handle_import_command _ content vault = some (vault, [])

pub record ExportOptions : Type 0 where
  pub output_path : Bytes
  pub stdout : Bool
  pub assume_yes : Bool

abbrev pub no_export_options : ExportOptions
no_export_options = record { output_path = []; stdout = false; assume_yes = false }

abbrev pub has_destination : ExportOptions → Bool
has_destination options = not (is_empty options.output_path) || options.stdout

pub data OptionError : Type 0 where
  invalid_options missing_destination invalid_ttl : OptionError

-- The loop of `parseExportOptions`.
unfoldable pub read_export_options : ExportOptions → List Bytes → Result OptionError ExportOptions
read_export_options options [] = ok options
read_export_options options (arg ∷ []) =
    if bytes_eq arg (codes "--output")
    then err invalid_options
    else elim (cut_prefix arg (codes "--output=")) [
      | some path ↦
          if has_destination options
          then err invalid_options
          else ok (record options { output_path = path })
      | none ↦
          if bytes_eq arg (codes "--stdout")
          then (if has_destination options
              then err invalid_options
              else ok (record options { stdout = true }))
          else if bytes_eq arg (codes "--yes")
          then ok (record options { assume_yes = true })
          else err invalid_options
    ]
read_export_options options (arg ∷ next ∷ args) = elim (bytes_eq arg (codes "--output")) [
  | true ↦ elim (has_destination options) [
    | true ↦ err invalid_options
    | false ↦ read_export_options (record options { output_path = next }) args
  ]
  | false ↦ elim (cut_prefix arg (codes "--output=")) [
    | some path ↦ elim (has_destination options) [
      | true ↦ err invalid_options
      | false ↦ read_export_options (record options { output_path = path }) (next ∷ args)
    ]
    | none ↦ elim (bytes_eq arg (codes "--stdout")) [
      | true ↦ elim (has_destination options) [
        | true ↦ err invalid_options
        | false ↦ read_export_options (record options { stdout = true }) (next ∷ args)
      ]
      | false ↦ elim (bytes_eq arg (codes "--yes")) [
        | true ↦ read_export_options (record options { assume_yes = true }) (next ∷ args)
        | false ↦ err invalid_options
      ]
    ]
  ]
]

abbrev pub check_export_options : ExportOptions → Result OptionError ExportOptions
check_export_options options =
    if options.stdout && options.assume_yes
    then err invalid_options
    else if has_destination options
    then ok options
    else err missing_destination

unfoldable pub parse_export_options : List Bytes → Result OptionError ExportOptions
parse_export_options args = elim (read_export_options no_export_options args) [
  | err e ↦ err e
  | ok options ↦ check_export_options options
]

-- The key and the time to live in nanoseconds. `parse_duration` is `time.ParseDuration`.
unfoldable pub parse_copy_options : (Bytes → Option ℤ) → List Bytes → Result OptionError (Bytes × ℤ)
parse_copy_options parse_duration (key ∷ []) = ok (key, pos 30000000000)
parse_copy_options parse_duration (key ∷ option ∷ []) = elim (cut_prefix option (codes "--ttl=")) [
  | none ↦ err invalid_options
  | some text ↦ elim (parse_duration text) [
    | none ↦ err invalid_ttl
    | some ttl ↦ if ltb_ℤ ttl (pos 0) then err invalid_ttl else ok (key, ttl)
  ]
]
parse_copy_options parse_duration _ = err invalid_options
