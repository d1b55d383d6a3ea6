-- ===== src/Prelude/Paths.antt =====
-- Go's filepath.Clean, Join and Dir, on Unix.
use Prim.Native.Char.{code}
use Prim.Native.String.{String, ◌++◌ as ◌<>◌}
use mathlib.Core.Bool.{Bool, true, false, ◌||◌}
use mathlib.Core.List.{List, [], ◌∷◌, reverse}
use cloudstack_csi_driver.Prelude.Tests.{◌==◌, if◌then◌else◌}
use cloudstack_csi_driver.Prelude.Text.{◌=?◌}
use cloudstack_csi_driver.Prelude.Strings.{split}

abbrev pub is_rooted : String → Bool
is_rooted String.[] = false
is_rooted (String.◌∷◌ c s) = code c == b'/'

-- `..` after the elements so far, the last one first.
abbrev back : Bool → List String → List String
back rooted [] = if rooted then [] else ".." ∷ []
back rooted (x ∷ xs) = if x =? ".." then ".." ∷ x ∷ xs else xs

abbrev element : Bool → String → List String → List String
element rooted c xs =
    if (c =? "") || (c =? ".") then xs else if c =? ".." then back rooted xs else c ∷ xs

abbrev elements : Bool → List String → List String → List String
elements rooted [] xs = xs
elements rooted (c ∷ cs) xs = elements rooted cs (element rooted c xs)

-- `strings.Join` with slashes.
abbrev pub join_slash : List String → String
join_slash [] = ""
join_slash (x ∷ []) = x
join_slash (x ∷ y ∷ ys) = x <> ("/" <> join_slash (y ∷ ys))

unfoldable pub rendered : Bool → List String → String
rendered true xs = "/" <> join_slash xs
rendered false [] = "."
rendered false (x ∷ xs) = join_slash (x ∷ xs)

unfoldable pub clean : String → String
unfolding split
clean path = rendered (is_rooted path) (reverse (elements (is_rooted path) (split b'/' path) []))

-- `filepath.Join`: the empty texts at the front are left out.
unfoldable pub join : List String → String
unfolding clean
join [] = ""
join (x ∷ xs) = let rest = join xs in if x =? "" then rest else clean (join_slash (x ∷ xs))

-- The text up to its last slash, that one included.
abbrev before_base : List String → String
before_base [] = ""
before_base (x ∷ []) = ""
before_base (x ∷ y ∷ ys) = x <> ("/" <> before_base (y ∷ ys))

unfoldable pub dir : String → String
unfolding clean split
dir path = clean (before_base (split b'/' path))
