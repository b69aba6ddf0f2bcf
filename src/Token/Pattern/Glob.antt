-- ===== src/Token/Pattern/Glob.antt =====
-- The regular expression of a key pattern says what the pattern means: a star is any text, every
-- other byte is itself.
use myminivault.Prelude.{
  ℕ, ◌<◌, ◌≡◌, ◌∙◌, ap, subst, refl, Bool, true, false, not, ◌&&◌, ◌||◌, ◌==◌, ◌++◌, List, [], ◌∷◌,
  Option, some, Bytes, codes, bytes_eq, is_empty, arith, contains_any, if◌then◌else◌, Bool-cases,
  inl, inr, ◌↔◌, All, All-append, Lacks,
}
use myminivault.Token.Pattern.{quote_meta, replace_stars, regex_pattern, match_key_pattern}

pub data Piece : Type 0 where
  literal : ℕ → Piece
  star : Piece

abbrev pub pieces : Bytes → List Piece
pieces [] = []
pieces (c ∷ pattern) = (if c == b'*' then star else literal c) ∷ pieces pattern

-- The next pieces match from some point on that is reached without a newline.
abbrev matches_after : (Bytes → Bool) → Bytes → Bool
matches_after next [] = next []
matches_after next (k ∷ key) = next (k ∷ key) || not (k == b'\n') && matches_after next key

-- The whole key matches the pieces, where a star is any text without a newline.
abbrev pub matches : List Piece → Bytes → Bool
matches [] key = is_empty key
matches (star ∷ rest) key = matches_after (matches rest) key
matches (literal c ∷ rest) [] = false
matches (literal c ∷ rest) (k ∷ key) = (k == c) && matches rest key

-- The syntax of a piece in a regular expression.
abbrev pub syntax : List Piece → Bytes
syntax [] = []
syntax (star ∷ rest) = codes ".*" ++ syntax rest
syntax (literal c ∷ rest) = quote_meta (c ∷ []) ++ syntax rest

replace_stars-cons :
    (c : ℕ) (s : Bytes) → replace_stars (c ∷ quote_meta s) ≡ c ∷ replace_stars (quote_meta s)
unfolding replace_stars quote_meta contains_any
replace_stars-cons c [] = refl
replace_stars-cons c (d ∷ s) = ground arith

replace_stars-quote_meta :
    (pattern : Bytes) → replace_stars (quote_meta pattern) ≡ syntax (pieces pattern)
unfolding replace_stars quote_meta contains_any
replace_stars-quote_meta [] = refl
replace_stars-quote_meta (c ∷ s) =
    ground (arith, replace_stars-cons c s, replace_stars-quote_meta s)

abbrev pub IsAscii : Bytes → Type 0
IsAscii = All (λ c. c < 128)

matches-any : (key : Bytes) → Lacks b'\n' key → matches (star ∷ []) key ≡ true
matches-any [] h = refl
matches-any (k ∷ key) h = ground (arith, h.0, matches-any key h.1)

abbrev pub HasPrefix : Bytes → Bytes → Type 0
HasPrefix prefix key = (rest : Bytes) × (key ≡ prefix ++ rest)

matches-has :
    (prefix key : Bytes)
    → Lacks b'*' prefix
    → matches (pieces (prefix ++ codes "*")) key ≡ true
    → HasPrefix prefix key
matches-has [] key h e = (key, refl)
matches-has (c ∷ prefix) [] h e = ground (arith, h.0)
matches-has (c ∷ prefix) (k ∷ key) h e =
    let (rest, e') = matches-has prefix key h.1 (ground (arith, h.0)) in
    (rest, ground (arith, h.0, e'))

has-matches :
    (prefix rest : Bytes)
    → Lacks b'*' prefix
    → Lacks b'\n' rest
    → matches (pieces (prefix ++ codes "*")) (prefix ++ rest) ≡ true
has-matches [] rest h k = matches-any rest k
has-matches (c ∷ prefix) rest h k = ground (arith, h.0, has-matches prefix rest h.1 k)

Lacks-rest : (prefix rest : Bytes) → Lacks b'\n' (prefix ++ rest) → Lacks b'\n' rest
Lacks-rest [] rest h = h
Lacks-rest (c ∷ prefix) rest h = Lacks-rest prefix rest h.1

IsAscii-quote_meta : (c : ℕ) → c < 128 → IsAscii (quote_meta (c ∷ []))
unfolding quote_meta
IsAscii-quote_meta c h = elim (Bool-cases (contains_any (c ∷ []) (codes "\\.+*?()|[]{}^$"))) [
  | inl e ↦ rw e (omega arith, (h, tt))
  | inr e ↦ rw e (h, tt)
]

IsAscii-syntax : (pattern : Bytes) → IsAscii pattern → IsAscii (syntax (pieces pattern))
IsAscii-syntax [] a = tt
IsAscii-syntax (c ∷ pattern) a = elim (Bool-cases (c == b'*')) [
  | inl e ↦ rw e (omega arith, (omega arith, IsAscii-syntax pattern a.1))
  | inr e ↦ rw e (
      All-append (λ d. d < 128) (quote_meta (c ∷ [])) (syntax (pieces pattern))
        (IsAscii-quote_meta c a.0) (IsAscii-syntax pattern a.1))
]

-- The test for the star alone changes nothing for a prefix and a star.
prefix_calm :
    (prefix key : Bytes)
    → Lacks b'*' prefix
    → Lacks b'\n' key
    → let pattern = prefix ++ codes "*" in
      (bytes_eq pattern (codes "*") || matches (pieces pattern) key) ≡ matches (pieces pattern) key
unfolding bytes_eq
prefix_calm [] key h k = rw (matches-any key k) refl
prefix_calm (c ∷ prefix) key h k = ground (arith, h.0)

-- On ASCII texts `MatchString` decides what the syntax of the pieces says.
abbrev pub IsEngine : (Bytes → Bytes → Option Bool) → Type 0
IsEngine match_string =
    (ps : List Piece) (key : Bytes)
    → IsAscii (syntax ps)
    → IsAscii key
    → match_string (b'^' ∷ (syntax ps ++ codes "$")) key ≡ some (matches ps key)

module _ (match_string : Bytes → Bytes → Option Bool) (engine : IsEngine match_string) where
  -- A pattern decides a key as its pieces do; the star alone allows every key.
  pub match_key_pattern-matches :
      (pattern key : Bytes)
      → IsAscii pattern
      → IsAscii key
      → match_key_pattern match_string pattern key
        ≡ some (bytes_eq pattern (codes "*") || matches (pieces pattern) key)
  unfolding match_key_pattern regex_pattern
  match_key_pattern-matches pattern key a b =
      rw
        (replace_stars-quote_meta pattern, engine (pieces pattern) key (IsAscii-syntax pattern a) b)
        (ground arith)

  -- A prefix and a star allow exactly the keys with that prefix, newlines aside.
  match_key_pattern-HasPrefix :
      (prefix key : Bytes)
      → IsAscii prefix
      → IsAscii key
      → Lacks b'*' prefix
      → Lacks b'\n' key
      → (match_key_pattern match_string (prefix ++ codes "*") key ≡ some true)
        ↔ HasPrefix prefix key
  match_key_pattern-HasPrefix prefix key a b h k =
      let decided =
        match_key_pattern-matches (prefix ++ codes "*") key
          (All-append (λ c. c < 128) prefix (codes "*") a (omega arith, tt)) b in
      let calm = prefix_calm prefix key h k in
      (
        λ e. matches-has prefix key h (ground arith),
        λ (rest, e).
            decided
            ∙ rw (calm, e)
                (ap (λ t. some t)
                  (has-matches prefix rest h (Lacks-rest prefix rest (subst (Lacks b'\n') e k)))),
      )
