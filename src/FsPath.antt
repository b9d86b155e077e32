-- ===== src/FsPath.antt =====
-- `std::path` on Unix as the crates use it: a path is its bytes, read as components.
-- crates/omne-execution-gateway/src/gateway.rs calls these operations and adds `path_components`,
-- `path_equals` and `path_starts_with`.
pub mod Laws
pub mod Order
pub mod Segments
mod Tests
use omne_runtime.Base.{
  ℕ, Bool, true, false, ◌&&◌, Option, none, some, List, [], ◌∷◌, ◌++◌, map, Bytes, codes, ◌==◌,
  text_eq, if◌then◌else◌,
}
use omne_runtime.Text.{split}
use mathlib.Core.List.{reverse, get_last?}

-- `std::path::Component`; there is no prefix on Unix.
pub data Component : Type 0 where
  root_dir cur_dir parent_dir : Component
  normal : Bytes → Component

abbrev slash : ℕ
slash = b'/'

-- The byte '.'
abbrev dot : ℕ
dot = b'.'

unfoldable pub is_absolute : Bytes → Bool
is_absolute [] = false
is_absolute (c ∷ p) = c == slash

-- A segment that stands behind another or behind the root: empty ones and `.` are skipped.
body_component : Bytes → List Component
unfolding text_eq
body_component s =
    if text_eq s []
    then []
    else if text_eq s (dot ∷ [])
    then []
    else if text_eq s (dot ∷ dot ∷ [])
    then parent_dir ∷ []
    else normal s ∷ []

body_components : List Bytes → List Component
unfolding body_component
body_components [] = []
body_components (s ∷ ss) = body_component s ++ body_components ss

-- The segments of a relative path: a leading `.` is kept.
relative_components : List Bytes → List Component
unfolding body_components text_eq
relative_components [] = []
relative_components (s ∷ ss) =
    if text_eq s (dot ∷ []) then cur_dir ∷ body_components ss else body_components (s ∷ ss)

-- `Path::components`
unfoldable pub components : Bytes → List Component
unfolding body_components relative_components split is_absolute
components p =
    if is_absolute p
    then root_dir ∷ body_components (split slash p)
    else relative_components (split slash p)

-- `Component::as_os_str`
unfoldable pub as_os_str : Component → Bytes
as_os_str root_dir = slash ∷ []
as_os_str cur_dir = dot ∷ []
as_os_str parent_dir = dot ∷ dot ∷ []
as_os_str (normal s) = s

abbrev pub last_normal : List Component → Option Bytes
last_normal [] = none
last_normal (normal s ∷ []) = some s
last_normal (root_dir ∷ []) = none
last_normal (cur_dir ∷ []) = none
last_normal (parent_dir ∷ []) = none
last_normal (c ∷ d ∷ cs) = last_normal (d ∷ cs)

-- `Path::file_name`
unfoldable pub file_name : Bytes → Option Bytes
unfolding components
file_name p = last_normal (components p)

abbrev starts_slash : Bytes → Bool
starts_slash [] = false
starts_slash (c ∷ p) = c == slash

abbrev is_nil : Bytes → Bool
is_nil [] = true
is_nil (c ∷ p) = false

-- On the reversed bytes: drop trailing separators and `.` segments, but keep a root.
pub trim_reversed : Bytes → Bytes
trim_reversed [] = []
trim_reversed (c ∷ r) =
    let rest = trim_reversed r in
    if c == slash
    then (if is_nil r then c ∷ r else rest)
    else if c == dot && starts_slash r
    then rest
    else c ∷ r

pub drop_segment : Bytes → Bytes
drop_segment [] = []
drop_segment (c ∷ r) = let rest = drop_segment r in if c == slash then c ∷ r else rest

pub has_parent : List Component → Bool
has_parent [] = false
has_parent (root_dir ∷ []) = false
has_parent (c ∷ cs) = true

-- `Path::parent`
unfoldable pub parent : Bytes → Option Bytes
unfolding trim_reversed drop_segment has_parent components
parent p =
    if has_parent (components p)
    then some (reverse (trim_reversed (drop_segment (trim_reversed (reverse p)))))
    else none

-- `PathBuf::pop`: a path without a parent stays.
unfoldable pub pop : Bytes → Bytes
unfolding parent
pop p = elim (parent p) [ none ↦ p | some q ↦ q ]

pub ends_slash : Bytes → Bool
ends_slash [] = true
ends_slash (c ∷ []) = c == slash
ends_slash (c ∷ d ∷ p) = ends_slash (d ∷ p)

-- `PathBuf::push`, `Path::join`: an absolute path replaces what is there.
unfoldable pub push : Bytes → Bytes → Bytes
unfolding is_absolute ends_slash
push p q = if is_absolute q then q else (if ends_slash p then p ++ q else p ++ (slash ∷ q))

-- `path_components` of gateway.rs.
unfoldable pub path_components : Bytes → List Bytes
unfolding components as_os_str
path_components p = map as_os_str (components p)

unfoldable pub components_eq : List Bytes → List Bytes → Bool
unfolding text_eq
components_eq [] [] = true
components_eq [] (y ∷ ys) = false
components_eq (x ∷ xs) [] = false
components_eq (x ∷ xs) (y ∷ ys) = text_eq x y && components_eq xs ys

-- `slice::starts_with`
unfoldable pub components_start_with : List Bytes → List Bytes → Bool
unfolding text_eq
components_start_with xs [] = true
components_start_with [] (y ∷ ys) = false
components_start_with (x ∷ xs) (y ∷ ys) = text_eq x y && components_start_with xs ys

-- `path_equals`
unfoldable pub path_equals : Bytes → Bytes → Bool
unfolding path_components components_eq
path_equals lhs rhs = components_eq (path_components lhs) (path_components rhs)

-- `path_starts_with`
unfoldable pub path_starts_with : Bytes → Bytes → Bool
unfolding path_components components_start_with
path_starts_with path prefix = components_start_with (path_components path) (path_components prefix)
