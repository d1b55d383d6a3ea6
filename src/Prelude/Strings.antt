-- ===== src/Prelude/Strings.antt =====
-- What the program uses of Go's strings, bufio and path/filepath packages.
use Prim.Native.Char.{Char, code}
use Prim.Native.Nat.{ℕ, ◌+◌, ◌-◌}
use Prim.Native.String.{String, len}
use mathlib.Core.Bool.{Bool, true, false, ◌&&◌, ◌||◌}
use mathlib.Core.List.{List, [], ◌∷◌, map}
use cloudstack_csi_driver.Prelude.Tests.{ltb, leb, ◌==◌, if◌then◌else◌}
use cloudstack_csi_driver.Prelude.Text.{codes}

-- Whether a list starts with another, and `strings.Contains`, on code points.
abbrev pub starts_with : List ℕ → List ℕ → Bool
starts_with [] cs = true
starts_with (p ∷ ps) [] = false
starts_with (p ∷ ps) (c ∷ cs) = (p == c) && starts_with ps cs

abbrev pub contains : List ℕ → List ℕ → Bool
contains ps [] = starts_with ps []
contains ps (c ∷ cs) = starts_with ps (c ∷ cs) || contains ps cs

-- Unicode white space.
abbrev pub is_space : ℕ → Bool
is_space c =
    (leb 9 c && leb c 13)
    || (c == 32)
    || (c == 0x85)
    || (c == 0xA0)
    || (c == 0x1680)
    || (leb 0x2000 c && leb c 0x200A)
    || (c == 0x2028)
    || (c == 0x2029)
    || (c == 0x202F)
    || (c == 0x205F)
    || (c == 0x3000)

abbrev trim_left : List ℕ → List ℕ
trim_left [] = []
trim_left (c ∷ cs) = let rest = trim_left cs in if is_space c then rest else c ∷ cs

abbrev put : ℕ → List ℕ → List ℕ
put c [] = if is_space c then [] else c ∷ []
put c (d ∷ ds) = c ∷ d ∷ ds

abbrev trim_right : List ℕ → List ℕ
trim_right [] = []
trim_right (c ∷ cs) = put c (trim_right cs)

-- `strings.TrimSpace`
unfoldable pub trim_space : List ℕ → List ℕ
trim_space cs = trim_right (trim_left cs)

-- `strings.ToLower`, exact as far as the code points of ASCII of the result go: the letters outside
-- ASCII that become one of ASCII are the capital I with a dot and the Kelvin sign.
abbrev pub to_lower : ℕ → ℕ
to_lower c =
    if leb b'A' c && leb c b'Z'
    then c + 32
    else if c == 0x130
    then b'i'
    else if c == 0x212A
    then b'k'
    else c

abbrev pub same_codes : List ℕ → List ℕ → Bool
same_codes [] [] = true
same_codes [] (d ∷ ds) = false
same_codes (c ∷ cs) [] = false
same_codes (c ∷ cs) (d ∷ ds) = (c == d) && same_codes cs ds

-- `strings.ToLower(s) == t`, for a text `t` of ASCII.
unfoldable pub lowers_to : String → String → Bool
lowers_to s t = same_codes (map to_lower (codes s)) (codes t)

-- A character before the first of some texts.
abbrev pub push : Char → List String → List String
push c [] = String.◌∷◌ c String.[] ∷ []
push c (w ∷ ws) = String.◌∷◌ c w ∷ ws

-- `strings.Split` at a character, and `strings.SplitAfter`, which keeps it.
unfoldable pub split : ℕ → String → List String
split sep String.[] = String.[] ∷ []
split sep (String.◌∷◌ c s) =
    let rest = split sep s in if code c == sep then String.[] ∷ rest else push c rest

unfoldable pub split_after : ℕ → String → List String
split_after sep String.[] = String.[] ∷ []
split_after sep (String.◌∷◌ c s) =
    let rest = split_after sep s in
    if code c == sep then String.◌∷◌ c String.[] ∷ rest else push c rest

-- `strings.ReplaceAll` of a character by nothing.
unfoldable pub remove_all : ℕ → String → String
remove_all sep String.[] = String.[]
remove_all sep (String.◌∷◌ c s) =
    let rest = remove_all sep s in if code c == sep then rest else String.◌∷◌ c rest

-- The bytes of a code point in UTF-8.
abbrev pub width : ℕ → ℕ
width c = if ltb c 0x80 then 1 else if ltb c 0x800 then 2 else if ltb c 0x10000 then 3 else 4

-- `s[:n]`, which counts bytes, or the whole text if it is shorter: the characters that fit. Where n
-- falls within a character Go keeps its first bytes too, which are no text.
unfoldable pub take_bytes : ℕ → String → String
take_bytes n String.[] = String.[]
take_bytes n (String.◌∷◌ c s) =
    let rest = take_bytes (n - width (code c)) s in
    if leb (width (code c)) n then String.◌∷◌ c rest else String.[]

-- The lines of a text, as `bufio.Scanner` finds them: with no carriage return at their ends, no
-- last empty line, and none from the first on that does not fit its buffer of 64 KiB.
abbrev pub drop_return : String → String
drop_return String.[] = String.[]
drop_return (String.◌∷◌ c String.[]) = if code c == 13 then String.[] else String.◌∷◌ c String.[]
drop_return (String.◌∷◌ c (String.◌∷◌ d s)) = String.◌∷◌ c (drop_return (String.◌∷◌ d s))

abbrev pub tokens : List String → List String
tokens [] = []
tokens (String.[] ∷ []) = []
tokens (String.◌∷◌ c w ∷ []) =
    if ltb (len (String.◌∷◌ c w)) 65536 then drop_return (String.◌∷◌ c w) ∷ [] else []
tokens (w ∷ v ∷ ws) =
    let rest = tokens (v ∷ ws) in if ltb (len w) 65536 then drop_return w ∷ rest else []

unfoldable pub lines : String → List String
lines s = tokens (split 10 s)
