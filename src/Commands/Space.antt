-- ===== src/Commands/Space.antt =====
-- `strings.TrimSpace`, which internal/commands/commands.go calls: it removes the runes that Unicode
-- counts as white space, here by their UTF-8 encodings.
use myminivault.Prelude.{ℕ, Bool, ◌&&◌, ◌||◌, [], ◌∷◌, reverse, leb, ◌==◌, if◌then◌else◌, Bytes}

-- \t \n \v \f \r and the blank.
unfoldable pub ascii_space : ℕ → Bool
ascii_space a = leb 9 a && leb a 13 || a == 32

-- U+0085 and U+00A0.
unfoldable pub space2 : ℕ → ℕ → Bool
space2 a b = a == 0xc2 && (b == 0x85 || b == 0xa0)

-- U+1680, U+2000 to U+200A, U+2028, U+2029, U+202F, U+205F and U+3000.
unfoldable pub space3 : ℕ → ℕ → ℕ → Bool
space3 a b c =
    a == 0xe1 && b == 0x9a && c == 0x80
    || a == 0xe2 && b == 0x80 && (leb 0x80 c && leb c 0x8a || c == 0xa8 || c == 0xa9 || c == 0xaf)
    || a == 0xe2 && b == 0x81 && c == 0x9f
    || a == 0xe3 && b == 0x80 && c == 0x80

-- Drops spaces of one, two or three bytes from the front, as long as there are any.
unfoldable pub trim_front : (ℕ → Bool) → (ℕ → ℕ → Bool) → (ℕ → ℕ → ℕ → Bool) → Bytes → Bytes
trim_front p q r [] = []
trim_front p q r (a ∷ []) = if p a then [] else a ∷ []
trim_front p q r (a ∷ b ∷ []) =
    let one = trim_front p q r (b ∷ []) in if p a then one else if q a b then [] else a ∷ b ∷ []
trim_front p q r (a ∷ b ∷ c ∷ s) =
    let one = trim_front p q r (b ∷ c ∷ s) in
    let two = trim_front p q r (c ∷ s) in
    let three = trim_front p q r s in
    if p a then one else if q a b then two else if r a b c then three else a ∷ b ∷ c ∷ s

-- From the right the bytes of a rune come in reverse order.
unfoldable pub trim_space : Bytes → Bytes
unfolding ascii_space space2 space3 trim_front
trim_space s =
    let s' = trim_front ascii_space space2 space3 s in
    reverse (trim_front ascii_space (λ a b. space2 b a) (λ a b c. space3 c b a) (reverse s'))
