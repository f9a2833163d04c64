-- ===== src/Paths.antt =====
-- The functions of Python's `os.path` that clint.py calls, on texts with `/` between their parts.
pub mod Shrinks
pub mod Parents
use mit_6172_fa15_project.Base.{
  ℕ, ◌-◌, Bool, true, false, not, ◌&&◌, ◌||◌, List, [], ◌∷◌, ◌++◌, Text, if◌then◌else◌, ◌==◌,
  length, take,
}
use mit_6172_fa15_project.Str.{codes, split, starts_with, text_eq}

abbrev add_char : ℕ → ℕ → Text × Text → Text × Text
add_char c x ([], tail) = if x == c then (x ∷ [], tail) else ([], x ∷ tail)
add_char c x (h ∷ head, tail) = (x ∷ h ∷ head, tail)

-- The texts in front of and behind the last `c`, the first with the `c`; `([], s)` where there is
-- none.
pub cut_last : ℕ → Text → Text × Text
cut_last c [] = ([], [])
cut_last c (x ∷ s) = add_char c x (cut_last c s)

-- s.rstrip('/')
pub strip_slashes : Text → Text
strip_slashes [] = []
strip_slashes (x ∷ s) =
    let rest = strip_slashes s in
    elim rest [ [] ↦ if x == b'/' then [] else x ∷ [] | r ∷ rs ↦ x ∷ r ∷ rs ]

-- os.path.split: a head of slashes alone stays as it is
abbrev head_of : Text → Text → Text
head_of head [] = head
head_of head (x ∷ s) = x ∷ s

unfoldable pub path_split : Text → Text × Text
unfolding cut_last strip_slashes
path_split p = let (head, tail) = cut_last b'/' p in (head_of head (strip_slashes head), tail)

-- os.path.dirname
abbrev pub dirname : Text → Text
dirname p = (path_split p).0

all_dots : Text → Bool
all_dots [] = true
all_dots (x ∷ s) = if x == b'.' then all_dots s else false

-- The root and the extension of a name without `/`; the dots at its front are no extension.
abbrev split_name : Text × Text → Text × Text
split_name ([], name) = (name, [])
split_name (root, extension) =
    let root' = take (length root - 1) root in
    if all_dots root' then (root ++ extension, []) else (root', b'.' ∷ extension)

-- os.path.splitext
unfoldable pub splitext : Text → Text × Text
unfolding cut_last all_dots
splitext p =
    let (head, tail) = cut_last b'/' p in
    let (root, extension) = split_name (cut_last b'.' tail) in (head ++ root, extension)

-- One round of the loop of `os.path.normpath`; the components so far, the last one first.
next_component : Bool → Text → List Text → List Text
next_component absolute component done =
    if text_eq component [] || text_eq component (codes ".")
    then done
    else if not (text_eq component (codes ".."))
    then component ∷ done
    else elim done [
      | [] ↦ if absolute then [] else component ∷ []
      | last ∷ rest ↦ if text_eq last (codes "..") then component ∷ last ∷ rest else rest
    ]

components : Bool → List Text → List Text → List Text
components absolute [] done = done
components absolute (c ∷ cs) done = components absolute cs (next_component absolute c done)

-- '/'.join of the components, which are given last one first
join_back : List Text → Text → Text
join_back [] out = out
join_back (c ∷ []) out = c ++ out
join_back (c ∷ cs) out = join_back cs (b'/' ∷ (c ++ out))

initial_slashes : Text → Text
initial_slashes p =
    if starts_with p (codes "//") && not (starts_with p (codes "///"))
    then codes "//"
    else if starts_with p (codes "/")
    then codes "/"
    else []

abbrev or_dot : Text → Text
or_dot [] = codes "."
or_dot p = p

-- os.path.normpath
unfoldable pub normpath : Text → Text
unfolding next_component components join_back initial_slashes
normpath p =
    or_dot
      (initial_slashes p ++ join_back (components (starts_with p (codes "/")) (split b'/' p) []) [])
