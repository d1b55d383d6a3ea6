-- ===== src/Syncer/Names.antt =====
-- pkg/syncer/name.go, over the code points of a name.
pub mod Laws
use cloudstack_csi_driver.Prelude.{
  ℕ, ◌+◌, Bool, true, false, not, ◌&&◌, ◌||◌, Option, none, some, List, [], ◌∷◌, map, ◌==◌, leb,
  take, if◌then◌else◌,
}

abbrev pub is_upper : ℕ → Bool
is_upper c = leb b'A' c && leb c b'Z'

abbrev pub is_lower : ℕ → Bool
is_lower c = leb b'a' c && leb c b'z'

abbrev pub is_digit : ℕ → Bool
is_digit c = leb b'0' c && leb c b'9'

-- `[^a-zA-Z0-9.]`
abbrev pub is_other : ℕ → Bool
is_other c = not (is_lower c || is_upper c || is_digit c || (c == b'.'))

-- White space of ASCII: after the replacement of the other characters there is no other.
abbrev pub is_space : ℕ → Bool
is_space c = (c == 32) || (leb 9 c && leb c 13)

abbrev pub is_mark : ℕ → Bool
is_mark c = (c == b'.') || (c == b'-')

abbrev pub lower : ℕ → ℕ
lower c = if is_upper c then c + 32 else c

-- `ReplaceAllString` of the runs of such characters by one other; `inside` tells that the character
-- before was one.
abbrev pub replace_runs : (ℕ → Bool) → ℕ → Bool → List ℕ → List ℕ
replace_runs p r inside [] = []
replace_runs p r inside (c ∷ cs) =
    let after = replace_runs p r true cs in
    let plain = replace_runs p r false cs in
    if p c then (if inside then after else r ∷ after) else c ∷ plain

-- `strings.TrimFunc`, from the left and from the right.
abbrev pub trim_left : (ℕ → Bool) → List ℕ → List ℕ
trim_left p [] = []
trim_left p (c ∷ cs) = let rest = trim_left p cs in if p c then rest else c ∷ cs

abbrev pub put : (ℕ → Bool) → ℕ → List ℕ → List ℕ
put p c [] = if p c then [] else c ∷ []
put p c (d ∷ ds) = c ∷ d ∷ ds

abbrev pub trim_right : (ℕ → Bool) → List ℕ → List ℕ
trim_right p [] = []
trim_right p (c ∷ cs) = put p c (trim_right p cs)

abbrev pub trim : (ℕ → Bool) → List ℕ → List ℕ
trim p cs = trim_right p (trim_left p cs)

-- From the text without its accents to the name.
abbrev pub cleaned : List ℕ → List ℕ
cleaned cs =
    let words = trim is_space (map lower (replace_runs is_other 32 false cs)) in
    trim is_mark (take 253 (replace_runs is_space b'-' false words))

abbrev pub unless_empty : List ℕ → Option (List ℕ)
unless_empty [] = none
unless_empty (c ∷ cs) = some (c ∷ cs)

-- `normalize` removes accents and diacritics, with golang.org/x/text; `none` is an error.
unfoldable pub create_storage_class_name : (List ℕ → Option (List ℕ)) → List ℕ → Option (List ℕ)
create_storage_class_name normalize name = elim (normalize name) [
  | none ↦ none
  | some cs ↦ unless_empty (cleaned cs)
]
