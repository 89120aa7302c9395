-- ===== src/Prelude/Text.antt =====
-- Texts: the functions of Go's package strings that the code calls, over the native `String`.
use Prim.Native.Nat.{ℕ, ◌+◌}
use Prim.Native.Char.{code}
use Prim.Native.String.{String}
use mathlib.Core.Path.{◌≡◌, refl}
use mathlib.Core.Bool.{Bool, true, false, ◌&&◌, ◌||◌}
use mathlib.Core.Option.{Option, none, some}
use native.Mathlib.Omega.{arith}
use ia_lab.Prelude.Tests.{leb, ◌==◌, if◌then◌else◌}
pub use text.Mathlib.Text.{◌==◌ as str_eq, starts_with}
pub use Prim.Native.String.{◌++◌ as str_append}

abbrev pub is_empty : String → Bool
is_empty String.[] = true
is_empty (String.◌∷◌ c s) = false

pub is_empty-eq : (s : String) → is_empty s ≡ true → s ≡ ""
is_empty-eq String.[] h = refl
is_empty-eq (String.◌∷◌ c s) h = absurd (ground arith)

-- unicode.IsSpace
abbrev pub is_space : ℕ → Bool
is_space c =
    (leb 9 c && leb c 13)
    || c == 32
    || c == 0x85
    || c == 0xa0
    || c == 0x1680
    || (leb 0x2000 c && leb c 0x200a)
    || c == 0x2028
    || c == 0x2029
    || c == 0x202f
    || c == 0x205f
    || c == 0x3000

unfoldable pub trim_left : String → String
trim_left String.[] = String.[]
trim_left (String.◌∷◌ c s) = if is_space (code c) then trim_left s else String.◌∷◌ c s

unfoldable pub trim_right : String → String
trim_right String.[] = String.[]
trim_right (String.◌∷◌ c s) =
    let rest = trim_right s in
    if is_empty rest && is_space (code c) then String.[] else String.◌∷◌ c rest

-- strings.TrimSpace
unfoldable pub trim_space : String → String
unfolding trim_left trim_right
trim_space s = trim_right (trim_left s)

-- strings.TrimSpace(s) == ""
abbrev pub is_blank : String → Bool
is_blank s = is_empty (trim_space s)

trim_space_test : trim_space "  a b\t\n" ≡ "a b"
unfolding trim_space
trim_space_test = refl

abbrev pub lower_code : ℕ → ℕ
lower_code c = if leb b'A' c && leb c b'Z' then c + 32 else c

-- strings.EqualFold, where one of the texts is of ASCII letters other than k and s.
unfoldable pub equal_fold_ascii : String → String → Bool
equal_fold_ascii String.[] String.[] = true
equal_fold_ascii String.[] (String.◌∷◌ d t) = false
equal_fold_ascii (String.◌∷◌ c s) String.[] = false
equal_fold_ascii (String.◌∷◌ c s) (String.◌∷◌ d t) =
    lower_code (code c) == lower_code (code d) && equal_fold_ascii s t

equal_fold_ascii_test : equal_fold_ascii "TruE" "true" ≡ true
unfolding equal_fold_ascii
equal_fold_ascii_test = refl

-- strings.Split(s, ",")[0]
unfoldable pub before_comma : String → String
before_comma String.[] = String.[]
before_comma (String.◌∷◌ c s) = if code c == 44 then String.[] else String.◌∷◌ c (before_comma s)

-- What follows the prefix, if the text starts with it.
abbrev after_prefix : String → String → Option String
after_prefix String.[] s = some s
after_prefix (String.◌∷◌ c p) String.[] = none
after_prefix (String.◌∷◌ c p) (String.◌∷◌ d s) = if code c == code d then after_prefix p s else none

-- strings.TrimPrefix
unfoldable pub trim_prefix : String → String → String
trim_prefix prefix s = elim (after_prefix prefix s) [ some rest ↦ rest | none ↦ s ]

trim_prefix_test : trim_prefix "Bearer " "Bearer a,b" ≡ "a,b"
unfolding trim_prefix
trim_prefix_test = refl

before_comma_test : before_comma "a, b,c" ≡ "a"
unfolding before_comma
before_comma_test = refl
