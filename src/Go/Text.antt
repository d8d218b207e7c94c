-- ===== src/Go/Text.antt =====
-- package strings: TrimSpace, SplitN with a one-byte separator, TrimRight of one byte, ToLower.
use meek.Base.{
  ℕ, zero, suc, ◌+◌, Bytes, codes, List, [], ◌∷◌, Option, none, some, Bool, ◌&&◌, ◌||◌, ◌==◌, leb,
  if◌then◌else◌, ◌≡◌, refl,
}
use mathlib.Core.List.{reverse}

-- The white space among the one-byte characters.
abbrev pub is_space : ℕ → Bool
is_space c = (leb 9 c && leb c 13) || c == 32

-- The white space of two and three bytes of UTF-8: U+0085, U+00A0; U+1680, U+2000 to U+200A,
-- U+2028, U+2029, U+202F, U+205F, U+3000.
abbrev is_space₂ : ℕ → ℕ → Bool
is_space₂ a b = a == 0xc2 && (b == 0x85 || b == 0xa0)

abbrev is_space₃ : ℕ → ℕ → ℕ → Bool
is_space₃ a b c =
    (a == 0xe1 && b == 0x9a && c == 0x80)
    || (a == 0xe2
        && ((b == 0x80 && ((leb 0x80 c && leb c 0x8a) || c == 0xa8 || c == 0xa9 || c == 0xaf))
            || (b == 0x81 && c == 0x9f)))
    || (a == 0xe3 && b == 0x80 && c == 0x80)

-- Drops the white space at the front.
pub trim_left : Bytes → Bytes
trim_left [] = []
trim_left (a ∷ []) = if is_space a then [] else a ∷ []
trim_left (a ∷ b ∷ []) =
    let one = trim_left (b ∷ []) in
    if is_space a then one else if is_space₂ a b then [] else a ∷ b ∷ []
trim_left (a ∷ b ∷ c ∷ s) =
    let one = trim_left (b ∷ c ∷ s) in
    let two = trim_left (c ∷ s) in
    let three = trim_left s in
    if is_space a
    then one
    else if is_space₂ a b
    then two
    else if is_space₃ a b c
    then three
    else a ∷ b ∷ c ∷ s

-- The same at the back, over the reversed text: a character's bytes come last first.
pub trim_back : Bytes → Bytes
trim_back [] = []
trim_back (a ∷ []) = if is_space a then [] else a ∷ []
trim_back (a ∷ b ∷ []) =
    let one = trim_back (b ∷ []) in
    if is_space a then one else if is_space₂ b a then [] else a ∷ b ∷ []
trim_back (a ∷ b ∷ c ∷ s) =
    let one = trim_back (b ∷ c ∷ s) in
    let two = trim_back (c ∷ s) in
    let three = trim_back s in
    if is_space a
    then one
    else if is_space₂ b a
    then two
    else if is_space₃ c b a
    then three
    else a ∷ b ∷ c ∷ s

-- strings.TrimSpace
unfoldable pub trim_space : Bytes → Bytes
unfolding trim_left trim_back
trim_space s = reverse (trim_back (reverse (trim_left s)))

-- The text before the first separator, and that behind it if there is one.
unfoldable pub cut : ℕ → Bytes → Bytes × Option Bytes
cut sep [] = ([], none)
cut sep (c ∷ s) = let rest = cut sep s in if c == sep then ([], some s) else (c ∷ rest.0, rest.1)

-- strings.SplitN(s, sep, n) for n ≥ 1 is `split_n sep (n - 1) s`.
unfoldable pub split_n : ℕ → ℕ → Bytes → List Bytes
unfolding cut
split_n sep zero s = s ∷ []
split_n sep (suc n) s =
    let (part, behind) = cut sep s in
    elim behind [ none ↦ part ∷ [] | some rest ↦ part ∷ split_n sep n rest ]

-- A byte in front of the first part.
abbrev pub in_front : ℕ → List Bytes → List Bytes
in_front c [] = (c ∷ []) ∷ []
in_front c (part ∷ parts) = (c ∷ part) ∷ parts

-- strings.Split with a one-byte separator.
unfoldable pub split : ℕ → Bytes → List Bytes
split sep [] = [] ∷ []
split sep (c ∷ s) = let rest = split sep s in if c == sep then [] ∷ rest else in_front c rest

drop_byte : ℕ → Bytes → Bytes
drop_byte b [] = []
drop_byte b (c ∷ s) = let rest = drop_byte b s in if c == b then rest else c ∷ s

-- strings.TrimRight(s, cutset) for a cutset of one byte.
unfoldable pub trim_right : ℕ → Bytes → Bytes
unfolding drop_byte
trim_right b s = reverse (drop_byte b (reverse s))

-- strings.ToLower, of an ASCII text.
unfoldable pub to_lower : Bytes → Bytes
to_lower [] = []
to_lower (c ∷ s) = (if leb b'A' c && leb c b'Z' then c + 32 else c) ∷ to_lower s

trim_space_test : trim_space (codes "  1.2.3.4 \t") ≡ codes "1.2.3.4"
unfolding trim_space
trim_space_test = refl

trim_space_wide : trim_space (0xe3 ∷ 0x80 ∷ 0x80 ∷ b'x' ∷ 0xc2 ∷ 0xa0 ∷ []) ≡ b'x' ∷ []
unfolding trim_space
trim_space_wide = refl

split_n_test : split_n b',' 1 (codes "a,b,c") ≡ codes "a" ∷ codes "b,c" ∷ []
unfolding split_n
split_n_test = refl

split_test : split b',' (codes "a,bc,") ≡ codes "a" ∷ codes "bc" ∷ [] ∷ []
unfolding split
split_test = refl
