-- ===== src/Go/Path.antt =====
-- path.Clean: the shortest spelling of a slash-separated path, by its elements.
use meek.Base.{
  Bytes, codes, List, [], ◌∷◌, ◌++◌, Bool, true, false, ◌==◌, if◌then◌else◌, same, ◌≡◌, refl,
}
use mathlib.Core.List.{reverse}

-- The elements between slashes.
cut_elements : Bytes → Bytes → List Bytes
cut_elements [] cur = reverse cur ∷ []
cut_elements (c ∷ s) cur =
    let cut = reverse cur ∷ cut_elements s [] in
    let more = cut_elements s (c ∷ cur) in if c == b'/' then cut else more

-- `..` takes the last element off, stays at the root, and is kept at the front of a relative path.
back : Bool → List Bytes → List Bytes
back true [] = []
back false [] = codes ".." ∷ []
back rooted (e ∷ out) = if same e (codes "..") then codes ".." ∷ e ∷ out else out

-- `out` holds the elements kept so far, the last one first.
walk : Bool → List Bytes → List Bytes → List Bytes
unfolding back
walk rooted [] out = out
walk rooted (e ∷ es) out = walk rooted es (
    if same e []
    then out
    else if same e (codes ".")
    then out
    else if same e (codes "..")
    then back rooted out
    else e ∷ out)

glue : List Bytes → Bytes
glue [] = []
glue (e ∷ []) = e
glue (e ∷ f ∷ es) = e ++ b'/' ∷ glue (f ∷ es)

finish : Bool → List Bytes → Bytes
unfolding glue
finish true es = b'/' ∷ glue es
finish false [] = codes "."
finish false (e ∷ es) = glue (e ∷ es)

is_rooted : Bytes → Bool
is_rooted [] = false
is_rooted (c ∷ s) = c == b'/'

unfoldable pub clean : Bytes → Bytes
unfolding cut_elements walk is_rooted finish
clean s = finish (is_rooted s) (reverse (walk (is_rooted s) (cut_elements s []) []))

clean_tests :
    (clean (codes "/a/../b//c/.") ≡ codes "/b/c")
    × (clean (codes "//") ≡ codes "/")
    × (clean (codes "/../x/..") ≡ codes "/")
    × (clean (codes "../a/..") ≡ codes "..")
    × (clean [] ≡ codes ".")
unfolding clean same
clean_tests = (refl, refl, refl, refl, refl)
