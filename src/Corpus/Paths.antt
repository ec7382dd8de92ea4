-- ===== src/Corpus/Paths.antt =====
-- Slash-separated paths, as Go's path/filepath treats them on Unix.
use arazu.Prelude.{
  Bool, false, List, [], ◌∷◌, ◌++◌, Text, codes, slash, nat_eq, text_eq, split, if◌then◌else◌, ◌≡◌,
  refl, not, ◌&&◌,
}

abbrev pub dot : Text
dot = codes "."

abbrev pub dot_dot : Text
dot_dot = codes ".."

-- filepath.IsAbs
unfoldable pub is_abs : Text → Bool
is_abs [] = false
is_abs (c ∷ p) = nat_eq c slash

-- One segment after another onto a stack, the last segment first. `..` removes a segment that is
-- there to remove; above the top of a rooted path it is dropped, and of any other path it is kept.
push_segment : Bool → Text → List Text → List Text
push_segment rooted seg [] =
    if text_eq seg []
    then []
    else if text_eq seg dot
    then []
    else if text_eq seg dot_dot && rooted
    then []
    else seg ∷ []
push_segment rooted seg (top ∷ rest) =
    if text_eq seg []
    then top ∷ rest
    else if text_eq seg dot
    then top ∷ rest
    else if text_eq seg dot_dot && not (text_eq top dot_dot)
    then rest
    else seg ∷ top ∷ rest

walk_segments : Bool → List Text → List Text → List Text
walk_segments rooted [] stack = stack
walk_segments rooted (seg ∷ segs) stack = walk_segments rooted segs (push_segment rooted seg stack)

-- The stack, bottom first, with a slash between the segments.
join_stack : List Text → Text → Text
join_stack [] out = out
join_stack (seg ∷ []) out = seg ++ out
join_stack (seg ∷ top ∷ rest) out = join_stack (top ∷ rest) (slash ∷ (seg ++ out))

or_dot : Text → Text
or_dot [] = dot
or_dot (c ∷ p) = c ∷ p

-- filepath.Clean
unfoldable pub clean : Text → Text
unfolding push_segment walk_segments join_stack or_dot is_abs text_eq split
clean p =
    let out = join_stack (walk_segments (is_abs p) (split slash p) []) [] in
    if is_abs p then slash ∷ out else or_dot out

-- filepath.Join of a non-empty directory and a path.
unfoldable pub join : Text → Text → Text
unfolding clean
join dir p = clean (dir ++ slash ∷ p)

clean_examples :
    (clean (codes "a//b/./c/../d/") ≡ codes "a/b/d")
    × (clean (codes "/../x") ≡ codes "/x")
    × (clean (codes "../../x") ≡ codes "../../x")
    × (clean [] ≡ dot)
unfolding clean
clean_examples = (refl, refl, refl, refl)
