-- ===== src/Prelude/Fields.antt =====
-- `strings.Split` and `strings.Join` at a separator of one byte.
use Prim.Native.Nat.{ℕ}
use mathlib.Core.Path.{◌≡◌, refl, ◌∙◌, ap, sym}
use mathlib.Core.Logic.{◌≢◌}
use mathlib.Core.List.{List, [], ◌∷◌, ◌++◌, append_assoc}
use native.Mathlib.Omega.{arith}
use myminivault.Prelude.Tests.{◌==◌, if◌then◌else◌}
use myminivault.Prelude.Lists.{All, All-append}
use myminivault.Prelude.Text.{Bytes}

-- A byte in front of the first field.
abbrev push_first : ℕ → List Bytes → List Bytes
push_first c [] = (c ∷ []) ∷ []
push_first c (s ∷ rest) = (c ∷ s) ∷ rest

unfoldable pub split_on : ℕ → Bytes → List Bytes
split_on sep [] = [] ∷ []
split_on sep (c ∷ s) =
    let rest = split_on sep s in if c == sep then [] ∷ rest else push_first c rest

unfoldable pub join_with : ℕ → List Bytes → Bytes
join_with sep [] = []
join_with sep (s ∷ []) = s
join_with sep (s ∷ t ∷ rest) = s ++ sep ∷ join_with sep (t ∷ rest)

-- What holds no separator.
abbrev pub Lacks : ℕ → Bytes → Type 0
Lacks sep = All (λ c. c ≢ sep)

split_on-field : (sep : ℕ) (s : Bytes) → Lacks sep s → split_on sep s ≡ s ∷ []
unfolding split_on
split_on-field sep [] h = refl
split_on-field sep (c ∷ s) h = rw (split_on-field sep s h.1) (ground (arith, h.0))

split_on-append :
    (sep : ℕ) (s rest : Bytes)
    → Lacks sep s
    → split_on sep (s ++ sep ∷ rest) ≡ s ∷ split_on sep rest
unfolding split_on
split_on-append sep [] rest h = ground arith
split_on-append sep (c ∷ s) rest h = rw (split_on-append sep s rest h.1) (ground (arith, h.0))

-- Splitting what was joined gives the fields back, if there is one and none holds the separator.
pub split_on-join_with :
    (sep : ℕ) (s : Bytes) (rest : List Bytes)
    → Lacks sep s
    → All (Lacks sep) rest
    → split_on sep (join_with sep (s ∷ rest)) ≡ s ∷ rest
unfolding join_with
split_on-join_with sep s [] h k = split_on-field sep s h
split_on-join_with sep s (t ∷ rest) h k =
    split_on-append sep s (join_with sep (t ∷ rest)) h
    ∙ ap (λ l. s ∷ l) (split_on-join_with sep t rest k.0 k.1)

join_with-push_first :
    (sep c : ℕ) (fields : List Bytes)
    → join_with sep (push_first c fields) ≡ c ∷ join_with sep fields
unfolding join_with
join_with-push_first sep c [] = refl
join_with-push_first sep c (s ∷ []) = refl
join_with-push_first sep c (s ∷ t ∷ rest) = refl

join_with-empty_push :
    (sep c : ℕ) (fields : List Bytes)
    → join_with sep ([] ∷ push_first c fields) ≡ sep ∷ join_with sep (push_first c fields)
unfolding join_with
join_with-empty_push sep c [] = refl
join_with-empty_push sep c (s ∷ rest) = refl

join_with-empty :
    (sep : ℕ) (s : Bytes)
    → join_with sep ([] ∷ split_on sep s) ≡ sep ∷ join_with sep (split_on sep s)
unfolding join_with split_on
join_with-empty sep [] = refl
join_with-empty sep (c ∷ s) = ground (arith, join_with-empty_push sep c (split_on sep s))

-- Joining what was split gives the text back.
pub join_with-split_on : (sep : ℕ) (s : Bytes) → join_with sep (split_on sep s) ≡ s
unfolding split_on join_with
join_with-split_on sep [] = refl
join_with-split_on sep (c ∷ s) = ground (
  arith,
  join_with-split_on sep s,
  join_with-push_first sep c (split_on sep s),
  join_with-empty sep s,
)

pub Lacks-join_with :
    (c sep : ℕ)
    → sep ≢ c
    → (fields : List Bytes) → All (Lacks c) fields
    → Lacks c (join_with sep fields)
unfolding join_with
Lacks-join_with c sep d [] h = tt
Lacks-join_with c sep d (s ∷ []) h = h.0
Lacks-join_with c sep d (s ∷ t ∷ rest) h =
    All-append (λ x. x ≢ c) s (sep ∷ join_with sep (t ∷ rest)) h.0
      (d, Lacks-join_with c sep d (t ∷ rest) h.1)

pub join_with-concat :
    (sep : ℕ) (s : Bytes) (fields : List Bytes) (last : Bytes)
    → join_with sep ((s ∷ fields) ++ last ∷ []) ≡ join_with sep (s ∷ fields) ++ sep ∷ last
unfolding join_with
join_with-concat sep s [] last = refl
join_with-concat sep s (t ∷ fields) last =
    rw (join_with-concat sep t fields last)
      (sym (append_assoc s (sep ∷ join_with sep (t ∷ fields)) (sep ∷ last)))
