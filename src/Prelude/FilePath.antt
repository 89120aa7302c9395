-- ===== src/Prelude/FilePath.antt =====
-- Go's package path/filepath on Unix: `Clean` and `Join`, by components.
use Prim.Native.Char.{Char, code}
use Prim.Native.String.{String}
use mathlib.Core.Path.{◌≡◌, refl}
use mathlib.Core.Bool.{Bool, true, false}
use mathlib.Core.List.{List, [], ◌∷◌, reverse}
use ia_lab.Prelude.Tests.{◌==◌, if◌then◌else◌}
use ia_lab.Prelude.Text.{str_eq, str_append, is_empty}

abbrev add_char : Char → List String → List String
add_char c [] = String.◌∷◌ c String.[] ∷ []
add_char c (part ∷ parts) = String.◌∷◌ c part ∷ parts

-- The components between the slashes; the parts of "" are one empty text.
unfoldable pub components : String → List String
components String.[] = String.[] ∷ []
components (String.◌∷◌ c s) =
    if code c == 47 then String.[] ∷ components s else add_char c (components s)

-- `..` leaves a directory; above a relative path it stays, above the root it goes.
abbrev pub leave : Bool → List String → List String
leave true [] = []
leave false [] = ".." ∷ []
leave rooted (top ∷ stack) = if str_eq top ".." then ".." ∷ top ∷ stack else stack

abbrev pub enter : Bool → String → List String → List String
enter rooted part stack =
    if is_empty part
    then stack
    else if str_eq part "."
    then stack
    else if str_eq part ".."
    then leave rooted stack
    else part ∷ stack

-- The components that are left, the innermost first.
unfoldable pub resolve : Bool → List String → List String → List String
resolve rooted [] stack = stack
resolve rooted (part ∷ parts) stack = resolve rooted parts (enter rooted part stack)

unfoldable pub join_parts : List String → String
join_parts [] = ""
join_parts (part ∷ []) = part
join_parts (part ∷ next ∷ parts) = str_append part (str_append "/" (join_parts (next ∷ parts)))

abbrev pub is_rooted : String → Bool
is_rooted String.[] = false
is_rooted (String.◌∷◌ c s) = code c == 47

abbrev or_dot : String → String
or_dot s = if is_empty s then "." else s

-- filepath.Clean
unfoldable pub clean : String → String
unfolding components resolve join_parts
clean path =
    let body = join_parts (reverse (resolve (is_rooted path) (components path) [])) in
    if is_rooted path then str_append "/" body else or_dot body

-- filepath.Join of two elements, empty ones left out
unfoldable pub join : String → String → String
unfolding clean
join a b =
    if is_empty a
    then (if is_empty b then "" else clean b)
    else if is_empty b
    then clean a
    else clean (str_append a (str_append "/" b))

clean_test : clean "/srv//lab/./x/../ws/" ≡ "/srv/lab/ws"
unfolding clean
clean_test = refl

clean_relative_test : clean "a/../.." ≡ ".."
unfolding clean
clean_relative_test = refl

clean_blank_test : clean "" ≡ "."
unfolding clean
clean_blank_test = refl
