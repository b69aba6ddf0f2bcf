-- ===== src/Token/Execute/Request/Flags.antt =====
-- A flag at the end is a flag only where the command has all its arguments without it.
use myminivault.Prelude.{
  Result, Option, ◌≡◌, true, false, [], ◌∷◌, List, some, arith, Bool, Bytes, codes, bytes_eq,
  is_empty, ok,
}
use myminivault.Token.Execute.Request.{
  Inputs, Request, RequestError, from_argument, token_argument_source, token_command_index,
  token_json_requested, token_show_requested, token_command_args, require_token_value,
  read_token_from, read_token_argument, parse_token_command_request,
}

-- A request with the token among the arguments.
abbrev request_of : Bytes → Bytes → List Bytes → Bool → Bool → Request
request_of token command args json_output show_output = record {
  token = token;
  token_source = from_argument;
  token_command = record {
    command = command;
    command_args = args;
    json_output = json_output;
    show_output = show_output;
  };
}

abbrev pub requested :
    Bytes → Bytes → List Bytes → Bool → Bool → Result RequestError (Option Request)
requested token command args json_output show_output =
    ok (some (request_of token command args json_output show_output))

-- The token is none of the words that say where to read one.
abbrev pub IsPlain : Bytes → Type 0
IsPlain token =
    (is_empty token ≡ false)
    × (bytes_eq token (codes "--stdin") ≡ false)
    × (bytes_eq token (codes "--token-file") ≡ false)
    × (bytes_eq token (codes "--token-fd") ≡ false)

module _ (inputs : Inputs) (program verb token key : Bytes) (plain : IsPlain token) where
  -- Whatever the value to set and the key to get are, also words that read like a flag, they are the
  -- arguments of the request, and the flag after them is a flag.
  pub parse_token_command_request-flags :
      (v : Bytes)
      → let parse = λ (args : List Bytes).
        parse_token_command_request inputs (program ∷ verb ∷ token ∷ args) in
        (parse (codes "set" ∷ key ∷ v ∷ [])
          ≡ requested token (codes "set") (key ∷ v ∷ []) false false)
        × (parse (codes "set" ∷ key ∷ v ∷ codes "--json" ∷ [])
            ≡ requested token (codes "set") (key ∷ v ∷ []) true false)
        × (parse (codes "get" ∷ key ∷ []) ≡ requested token (codes "get") (key ∷ []) false false)
        × (parse (codes "get" ∷ key ∷ codes "--json" ∷ [])
            ≡ requested token (codes "get") (key ∷ []) true false)
        × (parse (codes "get" ∷ key ∷ codes "--show" ∷ [])
            ≡ requested token (codes "get") (key ∷ []) false true)
  unfolding parse_token_command_request token_command_args token_json_requested token_show_requested
      token_command_index token_argument_source read_token_argument read_token_from
      require_token_value bytes_eq
  parse_token_command_request-flags v =
      (ground arith, ground arith, ground arith, ground arith, ground arith)
