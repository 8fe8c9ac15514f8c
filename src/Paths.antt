-- ===== src/Paths.antt =====
-- `Clean` of Go's package path/filepath, on Unix: the lexical processing that its documentation
-- describes, over the elements between slashes.
pub mod Ends
use mathlib.Core.List.{reverse}
use opx.Prelude.{Bool, true, false, ◌||◌, ◌&&◌, not, ◌==◌, List, [], ◌∷◌, ◌++◌, if◌then◌else◌}
use opx.Prelude.Bytes.{Bytes, codes, ◌=ᵇ◌}
use opx.Strings.{has_prefix, split, join}

-- An element `..` removes the element before it, is dropped at a root, and is kept elsewhere. The
-- elements so far come last first.
unfoldable pub back : Bool → List Bytes → List Bytes
back true [] = []
back false [] = codes ".." ∷ []
back rooted (e ∷ out) = if e =ᵇ codes ".." then codes ".." ∷ e ∷ out else out

unfoldable pub resolve : Bool → List Bytes → List Bytes → List Bytes
unfolding back
resolve rooted out [] = out
resolve rooted out (e ∷ es) =
    resolve rooted
      (if (e =ᵇ []) || (e =ᵇ codes ".")
        then out
        else if e =ᵇ codes ".."
        then back rooted out
        else e ∷ out)
      es

unfoldable pub or_dot : Bytes → Bytes
or_dot [] = codes "."
or_dot (c ∷ s) = c ∷ s

-- The elements of a path, resolved.
unfoldable pub elements : Bool → Bytes → Bytes
unfolding resolve split join
elements rooted p = join (codes "/") (reverse (resolve rooted [] (split b'/' p)))

unfoldable pub clean : Bytes → Bytes
unfolding elements or_dot has_prefix ◌=ᵇ◌
clean p =
    if has_prefix p (codes "/") then codes "/" ++ elements true p else or_dot (elements false p)

-- `filepath.Join(dir, name)` for an element that is no empty text.
unfoldable pub join_path : Bytes → Bytes → Bytes
unfolding clean
join_path [] name = clean name
join_path (c ∷ dir) name = clean ((c ∷ dir) ++ codes "/" ++ name)

-- The text up to the last slash and with it.
up_to_slash : Bytes → Bytes
up_to_slash [] = []
up_to_slash (c ∷ s) =
    let rest = up_to_slash s in if (rest =ᵇ []) && not (c == b'/') then [] else c ∷ rest

-- `filepath.Dir`
unfoldable pub dir_path : Bytes → Bytes
unfolding up_to_slash clean
dir_path p = clean (up_to_slash p)
