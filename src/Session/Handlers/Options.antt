-- ===== src/Session/Handlers/Options.antt =====
-- The options of an export name exactly one destination.
use myminivault.Prelude.{
  ◌≡◌, refl, true, false, not, ◌&&◌, List, [], ◌∷◌, arith, Bytes, codes, cut_prefix, is_empty, ok,
  Option-cases, Result-cases, inl, inr,
}
use myminivault.Session.Handlers.{
  ExportOptions, no_export_options, has_destination, read_export_options, parse_export_options,
}

abbrev IsSingle : ExportOptions → Type 0
IsSingle options = (options.stdout && not (is_empty options.output_path)) ≡ false

read_export_options-IsSingle :
    (start last : ExportOptions) (args : List Bytes)
    → IsSingle start
    → read_export_options start args ≡ ok last
    → IsSingle last
unfolding read_export_options
read_export_options-IsSingle start last [] s h = ground arith
read_export_options-IsSingle start last (arg ∷ []) s h = ground arith
read_export_options-IsSingle start last (arg ∷ next ∷ args) s h =
    elim (Option-cases (cut_prefix arg (codes "--output="))) [
      | inl n ↦ ground (
        arith,
        read_export_options-IsSingle (record start { output_path = next }) last args,
        read_export_options-IsSingle (record start { stdout = true }) last (next ∷ args),
        read_export_options-IsSingle (record start { assume_yes = true }) last (next ∷ args),
      )
      | inr (path, e) ↦ ground (
        arith,
        read_export_options-IsSingle (record start { output_path = next }) last args,
        read_export_options-IsSingle (record start { output_path = path }) last (next ∷ args),
      )
    ]

-- Options of an export that are accepted name exactly one destination, and an export to the terminal
-- needs no confirmation.
parse_export_options-IsSingle :
    (args : List Bytes) (options : ExportOptions)
    → parse_export_options args ≡ ok options
    → (has_destination options ≡ true)
      × ((options.stdout && not (is_empty options.output_path)) ≡ false)
      × ((options.stdout && options.assume_yes) ≡ false)
unfolding parse_export_options
parse_export_options-IsSingle args options h =
    elim (Result-cases (read_export_options no_export_options args)) [
      | inl (e, f) ↦ ground arith
      | inr (last, e) ↦
          let single = read_export_options-IsSingle no_export_options last args refl e in
          (ground arith, ground arith, ground arith)
    ]
