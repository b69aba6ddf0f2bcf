-- ===== src/Tests/Token.antt =====
-- Toy libraries for signed tokens and patterns, and a token that reads, writes and runs out.
use mathlib.Core.List.{append-nil, append_assoc}
use myminivault.Prelude.{
  ℕ, ◌+◌, ◌-◌, ◌%◌, ◌≡◌, ◌⊎◌, refl, ap, ◌∙◌, Bool, true, false, ◌||◌, ◌==◌, ltb, if◌then◌else◌,
  List, [], ◌∷◌, ◌++◌, map, Option, none, some, arith, Lacks, Bytes, codes, bytes_eq, length,
  contains_any, Result, ok, Dict, lookup, insert, entries, split_on, ◌≤◌,
}
use mathlib.Core.List.{append-nil, append_assoc}
use myminivault.Prelude.Int.{ℤ, pos, negsuc}
use myminivault.Model.{AccessToken, TokenManager, ExtendedVault, new_vault}
use myminivault.Token.{contains, is_expired_or_used_up}
use myminivault.Token.Pattern.{quote_meta, match_key_pattern, replace_stars, regex_pattern}
use myminivault.Token.Pattern.Glob.{
  Piece, star, literal, pieces, matches, syntax, IsEngine, match_key_pattern-matches,
}
use myminivault.Token.Signed.{
  TokenLibrary, Fields, decoded_token, token_fields, valid_token_signature,
  create_short_signed_token_v2, parse_and_validate_production_token,
}
use myminivault.Storage.Codec.{CodecError}
use myminivault.Token.Signed.Checked.{IsRegistered, signing_key, parse_and_validate-checked}
use myminivault.Prelude.Int.{inc64}
use myminivault.Token.Execute.{
  UseLibrary, TokenCommand, value, allows, execute_with_token, execute_token_get,
  save_successful_token_use, use_token,
}
use myminivault.Token.Execute.Confined.{
  IsJustified, execute_with_token-IsJustified, execute_with_token-confined,
}
use myminivault.Token.Execute.Limits.{
  Uses, start, use_next, IsWithinLimits, Uses-IsWithinLimits, Uses-IsCounted, uses_of, tokens_of,
}
use myminivault.Token.Signed.Accepted.{IsBase64, parse_and_validate-created}

-- Four symbols for a byte, none of them an equals sign.
abbrev shift : ℕ → ℕ → ℕ
shift mark c = if ltb c mark then c else c + 1

abbrev unshift : ℕ → ℕ → ℕ
unshift mark c = if ltb c mark then c else c - 1

abbrev pub encode : Bytes → Bytes
encode [] = []
encode (c ∷ s) = shift b'=' c ∷ b'A' ∷ b'A' ∷ b'A' ∷ encode s

abbrev pub decode : Bytes → Bytes
decode [] = []
decode (c ∷ _ ∷ _ ∷ _ ∷ s) = unshift b'=' c ∷ decode s
decode _ = []

abbrev format : ℤ → Bytes
format (pos n) = (n + 100) ∷ []
format (negsuc n) = b'-' ∷ (n + 100) ∷ []

abbrev read_int : Bytes → Option ℤ
read_int (c ∷ []) = some (pos (c - 100))
read_int (_ ∷ c ∷ []) = some (negsuc (c - 100))
read_int _ = none

abbrev pub toy : TokenLibrary
toy = record {
  hmac_sha256 = λ key text. key ++ text;
  std_encode = map (shift b':');
  std_decode = λ s. none;
  url_encode = encode;
  url_decode = λ s. some (decode s);
  format_int = format;
  parse_int64 = read_int;
  atoi = read_int;
  unix = λ t. pos t;
}

encode-Lacks : (s : Bytes) → Lacks b'=' (encode s)
encode-Lacks [] = tt
encode-Lacks (c ∷ s) = (ground arith, (omega arith, (omega arith, (omega arith, encode-Lacks s))))

length-encode : (s : Bytes) → length (encode s) % 4 ≡ 0
length-encode [] = omega arith
length-encode (c ∷ s) = omega (arith, length-encode s)

pub decode-encode : (s : Bytes) → decode (encode s) ≡ s
decode-encode [] = refl
decode-encode (c ∷ s) = ground (arith, decode-encode s)

pub encode-IsBase64 : (s : Bytes) → IsBase64 (encode s)
encode-IsBase64 s = (
  encode s,
  0,
  encode-Lacks s,
  omega arith,
  omega (arith, length-encode s),
  ground (arith, append-nil (encode s)),
)

pub std_encode-Lacks : (s : Bytes) → Lacks b':' (map (shift b':') s)
std_encode-Lacks [] = tt
std_encode-Lacks (c ∷ s) = (ground arith, std_encode-Lacks s)

pub format-Lacks : (i : ℤ) → Lacks b':' (format i)
format-Lacks (pos n) = (omega arith, tt)
format-Lacks (negsuc n) = (omega arith, (omega arith, tt))

abbrev pub reader : AccessToken
reader = record {
  token_id = codes "t1";
  key_pattern = codes "API_*";
  expires_at = 50;
  permissions = codes "read" ∷ codes "write" ∷ [];
  usage_count = pos 1;
  max_uses = pos 3;
  created_at = 10;
}

abbrev pub manager : TokenManager
manager = record { tokens = some ((codes "t1", reader) ∷ []); secret_key = codes "s" }

abbrev pub shared : ExtendedVault
shared =
    record (new_vault (some ((codes "API_KEY", codes "v") ∷ (codes "DB", codes "w") ∷ []))
      (codes "1.0") 1) { token_manager = some manager }

abbrev loaded : Result CodecError ExtendedVault
loaded = ok shared

abbrev token_text : Bytes
token_text = create_short_signed_token_v2 toy reader (codes "k")

accepted :
    parse_and_validate_production_token toy token_text (some (codes "k")) (ok shared) 20
    ≡ ok (reader, shared)
unfolding lookup bytes_eq is_expired_or_used_up
accepted =
    parse_and_validate-created toy reader (codes "k") shared manager (pos 1) 20 encode-IsBase64
      (λ t. ap (λ s. some s) (decode-encode t)) std_encode-Lacks format-Lacks refl refl
      (omega arith) (omega arith) (omega arith) refl refl refl

parse_and_validate-checked_example :
    (text : Bytes) × (fields : Fields) × (manager' : TokenManager) × (key : Bytes) × (decoded_token
        toy token_text
      ≡ ok text)
    × (token_fields (split_on b':' text) ≡ ok fields)
    × (loaded ≡ ok shared)
    × (shared.token_manager ≡ some manager')
    × IsRegistered toy fields manager' reader 20
    × (signing_key fields (some (codes "k")) manager' ≡ some key)
    × (valid_token_signature toy fields.payload fields.signature key ≡ true)
parse_and_validate-checked_example =
    parse_and_validate-checked toy token_text (some (codes "k")) loaded 20 reader shared accepted

-- An engine that reads the syntax of the pieces.
abbrev read_syntax : Bytes → List Piece
read_syntax [] = []
read_syntax (c ∷ []) = []
read_syntax (c ∷ d ∷ s) = elim (c == b'.') [
  | true ↦ star ∷ read_syntax s
  | false ↦ elim (c == b'\\') [
    | true ↦ literal d ∷ read_syntax s
    | false ↦ literal c ∷ read_syntax (d ∷ s)
  ]
]

abbrev engine : Bytes → Bytes → Option Bool
engine [] key = none
engine (_ ∷ regex) key = some (matches (read_syntax regex) key)

read_syntax-literal :
    (c : ℕ) (s : Bytes)
    → read_syntax (quote_meta (c ∷ []) ++ (s ++ codes "$"))
      ≡ literal c ∷ read_syntax (s ++ codes "$")
unfolding quote_meta contains_any
read_syntax-literal c [] = ground arith
read_syntax-literal c (d ∷ s) = ground arith

read_syntax-syntax : (ps : List Piece) → read_syntax (syntax ps ++ codes "$") ≡ ps
read_syntax-syntax [] = refl
read_syntax-syntax (star ∷ ps) = ap (λ rest. star ∷ rest) (read_syntax-syntax ps)
read_syntax-syntax (literal c ∷ ps) =
    ap read_syntax (append_assoc (quote_meta (c ∷ [])) (syntax ps) (codes "$"))
    ∙ read_syntax-literal c (syntax ps)
    ∙ ap (λ rest. literal c ∷ rest) (read_syntax-syntax ps)

engine-IsEngine : IsEngine engine
engine-IsEngine ps key a b = ap (λ qs. some (matches qs key)) (read_syntax-syntax ps)

match_key_pattern-matches_example :
    match_key_pattern engine (codes "A*B.") (codes "AxyB.")
    ≡ some (bytes_eq (codes "A*B.") (codes "*") || matches (pieces (codes "A*B.")) (codes "AxyB."))
match_key_pattern-matches_example =
    match_key_pattern-matches engine engine-IsEngine (codes "A*B.") (codes "AxyB.") (omega arith)
      (omega arith)

abbrev uses : UseLibrary
uses = record { match_string = engine; to_lower = λ s. s }

abbrev command : Bytes → List Bytes → TokenCommand
command name args = record {
  command = name;
  command_args = args;
  json_output = false;
  show_output = true;
}

abbrev saved_with : Option (Dict Bytes) → ExtendedVault
saved_with contents = record shared {
  contents = contents;
  token_manager =
      some (record manager {
        tokens = some ((codes "t1", record reader { usage_count = pos 2 }) ∷ []);
      });
}

abbrev after_get : ExtendedVault
after_get = saved_with shared.contents

got :
    execute_with_token uses true 20 shared reader (command (codes "get") (codes "API_KEY" ∷ []))
    ≡ ok (value (codes "API_KEY") (codes "v"), after_get)
unfolding execute_with_token execute_token_get save_successful_token_use match_key_pattern
    regex_pattern replace_stars quote_meta contains_any contains lookup insert bytes_eq inc64
got = refl

used :
    use_token toy uses true 20
      (some (codes "k"))
      (ok shared)
      token_text
      (command (codes "get") (codes "API_KEY" ∷ []))
    ≡ ok (value (codes "API_KEY") (codes "v"), after_get)
unfolding use_token
used = rw (accepted, got) refl

execute_with_token-IsJustified_example :
    IsJustified uses reader shared (value (codes "API_KEY") (codes "v"))
execute_with_token-IsJustified_example =
    execute_with_token-IsJustified uses reader true 20 shared
      (command (codes "get") (codes "API_KEY" ∷ [])) (value (codes "API_KEY") (codes "v")) after_get
      got

execute_with_token-confined_example :
    (lookup (codes "DB") (entries after_get.contents)
      ≡ lookup (codes "DB") (entries shared.contents))
    ⊎ ((contains reader.permissions (codes "write") ≡ true)
        × (allows uses reader (codes "DB") ≡ true))
execute_with_token-confined_example =
    execute_with_token-confined uses reader true 20 shared
      (command (codes "get") (codes "API_KEY" ∷ [])) (value (codes "API_KEY") (codes "v")) after_get
      (codes "DB") got

used_once : Uses toy uses shared (codes "t1" ∷ []) after_get
used_once =
    use_next token_text (some (codes "k")) 20 (command (codes "get") (codes "API_KEY" ∷ [])) reader
      (value (codes "API_KEY") (codes "v")) (start shared) accepted used

Uses-IsWithinLimits_example : IsWithinLimits after_get
Uses-IsWithinLimits_example =
    Uses-IsWithinLimits toy uses shared after_get (codes "t1" ∷ []) used_once
      ((refl, omega arith), tt)

Uses-IsCounted_example :
    (1 + uses_of (codes "t1") (codes "t1" ∷ []) ≤ 3)
    × (lookup (codes "t1") (tokens_of after_get)
        ≡ some (record reader { usage_count = pos (1 + uses_of (codes "t1") (codes "t1" ∷ [])) }))
unfolding lookup bytes_eq
Uses-IsCounted_example =
    Uses-IsCounted toy uses shared after_get (codes "t1" ∷ []) (codes "t1") reader 1 3 used_once
      ((refl, omega arith), tt) refl refl refl (omega arith)
