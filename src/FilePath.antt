-- ===== src/FilePath.antt =====
-- What the code uses of package path/filepath on Unix: Clean, Dir and IsAbs. Clean splits at the
-- slashes, drops empty parts and dots, and lets `..` take back the part before it.
pub mod Normal
pub mod Parent
use mathlib.Core.List.{foldl, reverse}
use collective.Prelude.{
  ℕ, ◌≡◌, refl, Bool, true, false, List, [], ◌∷◌, ◌++◌, arith, ◌==◌, if◌then◌else◌, any,
}
use collective.Text.{Text, bytes, same, has_prefix, contains}
use collective.Text.Split.{split, join}

abbrev pub slash : ℕ
slash = b'/'

abbrev pub dot : Text
dot = bytes "."

abbrev pub dotdot : Text
dotdot = bytes ".."

-- filepath.IsAbs
abbrev pub is_abs : Text → Bool
is_abs p = has_prefix p (bytes "/")

-- `..`, when the parts kept so far stand on the stack, the last one first.
unfoldable pub back_up : Bool → List Text → List Text
back_up rooted [] = if rooted then [] else dotdot ∷ []
back_up rooted (top ∷ below) = if same top dotdot then dotdot ∷ top ∷ below else below

-- One part of the path.
unfoldable pub clean_step : Bool → List Text → Text → List Text
unfolding back_up
clean_step rooted st [] = st
clean_step rooted st (c ∷ p) =
    if same (c ∷ p) dot then st else if same (c ∷ p) dotdot then back_up rooted st else (c ∷ p) ∷ st

unfoldable pub clean_parts : Bool → List Text → List Text → List Text
clean_parts rooted st parts = foldl (clean_step rooted) st parts

-- The text of a stack of parts.
unfoldable pub render : Bool → List Text → Text
render true st = slash ∷ join slash (reverse st)
render false [] = dot
render false (top ∷ below) = join slash (reverse (top ∷ below))

-- The parts that Clean keeps, the last one first.
unfoldable pub stack_of : Text → List Text
unfolding clean_parts
stack_of p = clean_parts (is_abs p) [] (split slash p)

-- filepath.Clean
unfoldable pub clean : Text → Text
unfolding stack_of render
clean p = render (is_abs p) (stack_of p)

-- `path[:i+1]` for the last slash at `i`, and "" where there is none.
unfoldable pub up_to_slash : Text → Text
up_to_slash [] = []
up_to_slash (c ∷ p) =
    let rest = up_to_slash p in
    if contains p slash then c ∷ rest else if c == slash then c ∷ [] else []

-- filepath.Dir
unfoldable pub dir : Text → Text
unfolding clean up_to_slash
dir p = clean (up_to_slash p)

clean_examples :
    (clean (bytes "/a//b/./../c/") ≡ bytes "/a/c")
    × (clean (bytes "../a/../../b") ≡ bytes "../../b")
    × (clean (bytes "/../..") ≡ bytes "/")
    × (clean [] ≡ bytes ".")
    × (clean (bytes "a/..") ≡ bytes ".")
    × (dir (bytes "/a/b") ≡ bytes "/a")
    × (dir (bytes "/a") ≡ bytes "/")
    × (dir (bytes "a") ≡ bytes ".")
    × (dir (bytes "/a/b/") ≡ bytes "/a/b")
unfolding clean dir clean_step same has_prefix contains split join
clean_examples = (refl, refl, refl, refl, refl, refl, refl, refl, refl)
