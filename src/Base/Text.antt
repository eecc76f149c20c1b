-- ===== src/Base/Text.antt =====
-- Go strings, as the list of what `for _, r := range s` meets: a code point below 0x110000 for each
-- rune, and 0x110000 + b for each byte b that is not part of valid UTF-8. `strings.TrimSpace`,
-- `len`, `==` and `utf8.ValidString` are those of Go's standard library on this form.
use Prim.Native.Char.{code}
use Prim.Native.String.{String}
use Prim.Native.Nat.{ℕ, ◌+◌}
use mathlib.Core.Path.{◌≡◌, refl}
use mathlib.Core.Logic.{◌↔◌}
use mathlib.Core.Bool.{Bool, true, false, not, ◌&&◌, ◌||◌}
use mathlib.Core.List.{List, [], ◌∷◌}
use native.Mathlib.Omega.{arith}
use switch_manager.Base.Tests.{ltb, leb, ◌==◌, if◌then◌else◌}
use switch_manager.Base.Lists.{is_empty, all, any}

abbrev pub Text : Type 0
Text = List ℕ

-- The code points of a literal.
abbrev pub codes : String → Text
codes String.[] = []
codes (String.◌∷◌ c s) = code c ∷ codes s

-- `==` on strings.
abbrev pub text_eq : Text → Text → Bool
text_eq [] [] = true
text_eq [] (y ∷ ys) = false
text_eq (x ∷ xs) [] = false
text_eq (x ∷ xs) (y ∷ ys) = x == y && text_eq xs ys

-- `unicode.IsSpace`.
unfoldable pub is_space : ℕ → Bool
is_space c =
    leb 9 c && leb c 13
    || c == 32
    || c == 0x85
    || c == 0xA0
    || c == 0x1680
    || leb 0x2000 c && leb c 0x200A
    || c == 0x2028
    || c == 0x2029
    || c == 0x202F
    || c == 0x205F
    || c == 0x3000

-- `unicode.IsControl`.
unfoldable pub is_control : ℕ → Bool
is_control c = ltb c 32 || leb 127 c && ltb c 160

-- The width of a rune in bytes.
unfoldable pub rune_len : ℕ → ℕ
rune_len c =
    if leb 0x110000 c
    then 1
    else if ltb c 0x80
    then 1
    else if ltb c 0x800
    then 2
    else if ltb c 0x10000
    then 3
    else 4

-- `len(s)`, in bytes.
unfoldable pub byte_len : Text → ℕ
unfolding rune_len
byte_len [] = 0
byte_len (c ∷ s) = rune_len c + byte_len s

unfoldable pub valid_string : Text → Bool
valid_string s = all (λ c. ltb c 0xD800 || leb 0xE000 c && ltb c 0x110000) s

trim_left : Text → Text
unfolding is_space
trim_left [] = []
trim_left (c ∷ s) = let rest = trim_left s in if is_space c then rest else c ∷ s

trim_right : Text → Text
unfolding is_space
trim_right [] = []
trim_right (c ∷ s) = let rest = trim_right s in if is_space c && is_empty rest then [] else c ∷ rest

-- `strings.TrimSpace`.
unfoldable pub trim_space : Text → Text
unfolding trim_left trim_right is_space
trim_space s = trim_right (trim_left s)

-- `strings.TrimSpace(s) == ""`.
unfoldable pub is_blank : Text → Bool
unfolding trim_space
is_blank s = is_empty (trim_space s)

pub text_eq_iff : (s t : Text) → (text_eq s t ≡ true) ↔ (s ≡ t)
text_eq_iff [] [] = (λ _. refl, λ _. refl)
text_eq_iff [] (y ∷ ys) = (λ h. cc, λ h. cc)
text_eq_iff (x ∷ xs) [] = (λ h. cc, λ h. cc)
text_eq_iff (x ∷ xs) (y ∷ ys) = grind (arith, text_eq_iff xs ys)

pub text_eq_refl : (s : Text) → text_eq s s ≡ true
text_eq_refl s = (text_eq_iff s s).1 refl

-- A character in front of the first piece, or a new piece at a separator.
abbrev pub add_char : Bool → ℕ → List Text → List Text
add_char true c pieces = [] ∷ pieces
add_char false c [] = (c ∷ []) ∷ []
add_char false c (piece ∷ pieces) = (c ∷ piece) ∷ pieces

-- `strings.Split(s, sep)` for a separator of one byte: the pieces between the separators, at least
-- one.
unfoldable pub split : ℕ → Text → List Text
split sep [] = [] ∷ []
split sep (c ∷ s) = add_char (c == sep) c (split sep s)

-- A text with a character that is no space is not blank.
abbrev pub is_shown : ℕ → Bool
is_shown c = not (is_space c)

trim_left-shown : (s : Text) → any is_shown (trim_left s) ≡ any is_shown s
unfolding trim_left
trim_left-shown [] = refl
trim_left-shown (c ∷ s) = ground (arith, trim_left-shown s)

trim_right-shown : (s : Text) → any is_shown s ≡ true → is_empty (trim_right s) ≡ false
unfolding trim_right
trim_right-shown [] h = absurd (cc)
trim_right-shown (c ∷ s) h = ground (arith, trim_right-shown s)

pub is_blank-shown : (s : Text) → any is_shown s ≡ true → is_blank s ≡ false
unfolding is_blank trim_space
is_blank-shown s h = trim_right-shown (trim_left s) (ground (arith, trim_left-shown s))
