-- ===== src/Prelude/Paths.antt =====
-- The functions of the packages `path` and `path/filepath` that the program calls, for paths with
-- slashes.
use Prim.Native.Nat.{ℕ}
use mathlib.Core.Bool.{Bool, true, false, ◌||◌}
use mathlib.Core.List.{List, [], ◌∷◌, reverse}
use ldf.Prelude.Tests.{◌==◌, if◌then◌else◌}
use ldf.Prelude.Lists.{is_nil, any}
use ldf.Prelude.Strings.{Text, codes, text_eq, has_prefix, join, split_on}

-- The text from its first byte on that is no slash.
unfoldable pub drop_slashes : Text → Text
drop_slashes [] = []
drop_slashes (c ∷ s) = let rest = drop_slashes s in if c == b'/' then rest else c ∷ s

-- What stands behind the last `c`, or the whole text if it has none.
unfoldable pub after_last : ℕ → Text → Text
after_last c [] = []
after_last c (x ∷ s) =
    let rest = after_last c s in if any (λ y. y == c) s then rest else if x == c then s else x ∷ s

-- `path.Base`
unfoldable pub path_base : Text → Text
unfolding drop_slashes after_last
path_base [] = codes "."
path_base (c ∷ s) =
    let trimmed = reverse (drop_slashes (reverse (c ∷ s))) in
    if is_nil trimmed then codes "/" else after_last b'/' trimmed

-- `path.Ext`: from the last dot of the last element on.
unfoldable pub path_ext : Text → Text
unfolding after_last
path_ext path =
    let name = after_last b'/' path in
    if any (λ y. y == b'.') name then b'.' ∷ after_last b'.' name else []

-- One element of a path on top of those before it, the last one first, in `path.Clean`.
unfoldable pub clean_step : Bool → List Text → Text → List Text
unfolding text_eq
clean_step rooted kept element =
    if is_nil element || text_eq element (codes ".")
    then kept
    else if text_eq element (codes "..")
    then step_back rooted kept
    else element ∷ kept
  where
    step_back : Bool → List Text → List Text
    step_back true [] = []
    step_back false [] = codes ".." ∷ []
    step_back rooted (last ∷ kept) =
        if text_eq last (codes "..") then codes ".." ∷ last ∷ kept else kept

unfoldable pub clean_elements : Bool → List Text → List Text → List Text
unfolding clean_step
clean_elements rooted kept [] = kept
clean_elements rooted kept (element ∷ elements) =
    clean_elements rooted (clean_step rooted kept element) elements

-- `filepath.Clean`
unfoldable pub path_clean : Text → Text
unfolding split_on has_prefix join clean_elements
path_clean path =
    let rooted = has_prefix path (codes "/") in
    let body = join (codes "/") (reverse (clean_elements rooted [] (split_on b'/' path))) in
    if rooted then b'/' ∷ body else if is_nil body then codes "." else body

-- `filepath.Join`
unfoldable pub path_join : List Text → Text
unfolding path_clean join
path_join [] = []
path_join ([] ∷ elements) = path_join elements
path_join ((c ∷ s) ∷ elements) = path_clean (join (codes "/") ((c ∷ s) ∷ elements))
