-- ===== src/Vfs/Clean.antt =====
-- Go's `path` package, as far as the virtual file system calls it: `Clean`, `Dir` and `Base`.
-- A path is split at its slashes, resolved part by part on a stack, and put together again.
pub mod Segments
pub mod Laws
use yunxia.Prelude.{
  ℕ, List, [], ◌∷◌, ◌++◌, reverse, Bool, true, false, ◌||◌, Text, txt, str_eq, is_empty, has_prefix,
  ◌==◌, if◌then◌else◌, ◌≡◌, refl,
}

abbrev pub slash : ℕ
slash = b'/'

abbrev extend_head : ℕ → List Text → List Text
extend_head c [] = (c ∷ []) ∷ []
extend_head c (p ∷ ps) = (c ∷ p) ∷ ps

-- The parts between the slashes; at least one.
unfoldable pub split_slash : Text → List Text
split_slash [] = [] ∷ []
split_slash (c ∷ s) =
    let rest = split_slash s in if c == slash then [] ∷ rest else extend_head c rest

-- `/p/q` for the parts p, q, and nothing for no part.
abbrev pub slashed : List Text → Text
slashed [] = []
slashed (p ∷ ps) = slash ∷ (p ++ slashed ps)

-- The absolute path with the given parts.
abbrev pub absolute : List Text → Text
absolute [] = slash ∷ []
absolute (p ∷ ps) = slashed (p ∷ ps)

-- The relative path with the given parts; `.` if there are none.
abbrev relative : List Text → Text
relative [] = txt "."
relative (p ∷ ps) = p ++ slashed ps

-- A `..` on a stack of parts with its top at the head takes the part before it away; at the root
-- it is dropped, and at the head of a relative path it stays.
up : Bool → List Text → List Text
up rooted [] = if rooted then [] else txt ".." ∷ []
up rooted (top ∷ below) = if str_eq top (txt "..") then txt ".." ∷ top ∷ below else below

-- One part of the path.
resolve : Bool → List Text → Text → List Text
unfolding up
resolve rooted stack part =
    if is_empty part || str_eq part (txt ".")
    then stack
    else if str_eq part (txt "..")
    then up rooted stack
    else part ∷ stack

resolve_all : Bool → List Text → List Text → List Text
resolve_all rooted stack [] = reverse stack
resolve_all rooted stack (p ∷ ps) = resolve_all rooted (resolve rooted stack p) ps

-- `path.Clean`
unfoldable pub clean : Text → Text
unfolding split_slash resolve resolve_all
clean s =
    if has_prefix s (txt "/")
    then absolute (resolve_all true [] (split_slash s))
    else relative (resolve_all false [] (split_slash s))

clean_tests :
    (clean (txt "/a//b/../c/.") ≡ txt "/a/c")
    × (clean (txt "/../..") ≡ txt "/")
    × (clean (txt "../a/..") ≡ txt "..")
    × (clean (txt "") ≡ txt ".")
unfolding clean
clean_tests = (refl, refl, refl, refl)
