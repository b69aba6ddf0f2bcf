-- ===== src/Token/Execute/Request.antt =====
-- cmd/vault/token_execute_cli.go: the request for a token command, read from the arguments, and
-- `readValueFromStdin` of cmd/vault/commands.go.
pub mod Flags
use myminivault.Prelude.{
  ℕ, ◌+◌, zero, suc, Bool, true, false, not, ◌&&◌, ◌||◌, ◌==◌, leb, ltb, List, [], ◌∷◌, Option,
  none, some, Bytes, codes, bytes_eq, drop, take, length, is_empty, reverse, if◌then◌else◌, Result,
  ok, err, ◌>>=◌, ◌>>◌, fail_if, ◌-◌,
}
use myminivault.Commands.Space.{trim_space}
use myminivault.Token.Execute.{TokenCommand}

-- What the process reads: stdin to its end, files by their checked path, file descriptors of 32
-- bits. `none` is an error; `open_fd` says if `os.NewFile` gives a file.
pub record Inputs : Type 0 where
  pub stdin : Option Bytes
  pub read_file : Bytes → Option Bytes
  pub parse_fd : Bytes → Option ℕ
  pub open_fd : ℕ → Bool
  pub read_fd : ℕ → Option Bytes

pub data RequestError : Type 0 where
  missing_token stdin_failed usage_file file_failed usage_fd invalid_fd open_failed fd_failed :
      RequestError
  empty_token usage_command : RequestError

-- Where the token comes from.
pub data Source : Type 0 where
  from_argument from_stdin from_file from_fd : Source

pub record Request : Type 0 where
  pub token : Bytes
  pub token_source : Source
  pub token_command : TokenCommand

-- `args[n]`, if there is such an argument.
abbrev pub arg : ℕ → List Bytes → Option Bytes
arg n [] = none
arg zero (a ∷ args) = some a
arg (suc n) (a ∷ args) = arg n args

abbrev pub is_arg : ℕ → List Bytes → Bytes → Bool
is_arg n args text = elim (arg n args) [ none ↦ false | some a ↦ bytes_eq a text ]

abbrev pub last_is : Bytes → List Bytes → Bool
last_is text [] = false
last_is text (a ∷ []) = bytes_eq a text
last_is text (a ∷ b ∷ args) = last_is text (b ∷ args)

-- The branch of the `switch` on `args[2]`.
unfoldable pub token_argument_source : List Bytes → Source
token_argument_source args =
    if is_arg 2 args (codes "--stdin")
    then from_stdin
    else if is_arg 2 args (codes "--token-file")
    then from_file
    else if is_arg 2 args (codes "--token-fd")
    then from_fd
    else from_argument

-- `tokenCommandIndex`; `none` is -1.
unfoldable pub token_command_index : List Bytes → Option ℕ
token_command_index args =
    if ltb (length args) 3
    then none
    else if is_arg 2 args (codes "--token-file") || is_arg 2 args (codes "--token-fd")
    then some 4
    else some 3

-- How many arguments a command needs in front of a flag, its own name included.
unfoldable pub token_json_requested : List Bytes → Bool
token_json_requested args =
    if not (last_is (codes "--json") args) then false else elim (token_command_index args) [
      | none ↦ true
      | some n ↦
          if leb (length args) n
          then true
          else if is_arg n args (codes "set")
          then leb (n + 4) (length args)
          else if is_arg n args (codes "get") || is_arg n args (codes "search")
          then leb (n + 3) (length args)
          else if is_arg n args (codes "list")
          then leb (n + 2) (length args)
          else true
    ]

unfoldable pub token_show_requested : List Bytes → Bool
token_show_requested args =
    if not (last_is (codes "--show") args) then false else elim (token_command_index args) [
      | none ↦ false
      | some n ↦
          if leb (length args) (n + 1)
          then false
          else if is_arg n args (codes "get") || is_arg n args (codes "search")
          then leb (n + 3) (length args)
          else false
    ]

unfoldable pub token_command_args : List Bytes → List Bytes
token_command_args args =
    if not (token_json_requested args) && not (token_show_requested args)
    then args
    else take (length args - 1) args

unfoldable pub require_token_value : Bytes → ℕ → Result RequestError (Bytes × ℕ)
require_token_value token command_index =
    if is_empty token then err empty_token else ok (token, command_index)

-- `strings.TrimSuffix` for a suffix of one byte.
abbrev trim_last : ℕ → Bytes → Bytes
trim_last c s = elim (reverse s) [ [] ↦ [] | a ∷ front ↦ if a == c then reverse front else s ]

unfoldable pub read_value_from_stdin : Option Bytes → Option Bytes
read_value_from_stdin none = none
read_value_from_stdin (some text) = some (trim_last b'\r' (trim_last b'\n' text))

abbrev pub or_fail {ℓ} : {A : Type ℓ} → RequestError → Option A → Result RequestError A
or_fail e none = err e
or_fail e (some a) = ok a

module _ (inputs : Inputs) where
  -- The branches of `readTokenArgument`, from the source and `args[3]`.
  unfoldable pub read_token_from : Source → Bytes → Bytes → ℕ → Result RequestError (Bytes × ℕ)
  read_token_from from_argument first next count = require_token_value first 3
  read_token_from from_stdin first next count = do
    text ← or_fail stdin_failed (read_value_from_stdin inputs.stdin)
    require_token_value text 3
  read_token_from from_file path next count = do
    fail_if (ltb count 5) usage_file
    text ← or_fail file_failed (inputs.read_file next)
    require_token_value (trim_space text) 4
  read_token_from from_fd first next count = do
    fail_if (ltb count 5) usage_fd
    fd ← or_fail invalid_fd (inputs.parse_fd next)
    fail_if (not (inputs.open_fd fd)) open_failed
    text ← or_fail fd_failed (inputs.read_fd fd)
    require_token_value (trim_space text) 4

  unfoldable pub read_token_argument : List Bytes → Result RequestError (Bytes × ℕ)
  read_token_argument (program ∷ verb ∷ first ∷ rest) =
      read_token_from (token_argument_source (program ∷ verb ∷ first ∷ rest)) first
        (elim rest [ [] ↦ [] | next ∷ _ ↦ next ]) (length rest + 3)
  read_token_argument _ = err missing_token

  -- `parseTokenCommandRequest`; `none` is its second result `false`.
  unfoldable pub parse_token_command_request : List Bytes → Result RequestError (Option Request)
  parse_token_command_request raw_args =
      let args = token_command_args raw_args in
      if ltb (length args) 4 then ok none else do
        (token, command_index) ← read_token_argument args
        elim (drop command_index args) [
          | [] ↦ err usage_command
          | command ∷ command_args ↦ ok (
              some (record {
                token = token;
                token_source = token_argument_source args;
                token_command = record {
                  command = command;
                  command_args = command_args;
                  json_output = token_json_requested raw_args;
                  show_output = token_show_requested raw_args;
                };
              }))
        ]
