-- ===== src/Fs/Context/Roots.antt =====
-- What the test of adjacent pairs shows of all the roots of a context.
use omne_runtime.Base.{map, List, Bytes, true, false, [], ◌∷◌, ◌++◌, ok, ◌≡◌, arith}
use omne_runtime.Base.Order.{All, Pairs, sort, sort-Pairs, sort-IsSorted}
use mathlib.Core.List.{map-append}
use omne_runtime.Fs.Context.{
  validate_pairs, validate_canonical_roots_non_overlapping, root_le, validate_pair, CanonicalRoot,
}
use omne_runtime.FsPath.{as_os_str, path_components, components, path_starts_with, Component}
use omne_runtime.FsPath.Laws.{path_starts_with_iff}
use omne_runtime.FsPath.Order.{
  path_le_trans, path_le-total, path_le-antisym, path_le-inside, path_le-between,
}

-- The second path is the first one or lies inside it.
abbrev pub IsInside : Bytes → Bytes → Type 0
IsInside outer inner = (rest : List Component) × (components inner ≡ components outer ++ rest)

-- Neither directory is inside the other.
abbrev pub IsDisjoint : CanonicalRoot → CanonicalRoot → Type 0
IsDisjoint a b =
    ¬ IsInside a.canonical_path b.canonical_path × ¬ IsInside b.canonical_path a.canonical_path

IsInside-starts : (a b : Bytes) → IsInside a b → path_starts_with b a ≡ true
unfolding path_components
IsInside-starts a b (rest, inside) =
    (path_starts_with_iff b a).1
      (map as_os_str rest, rw inside (map-append as_os_str (components a) rest))

not_starts-IsInside : (a b : Bytes) → path_starts_with b a ≡ false → ¬ IsInside a b
not_starts-IsInside a b h inside = let starts = IsInside-starts a b inside in absurd (ground arith)

validate_pair-apart : (a b : CanonicalRoot) → validate_pair a b ≡ ok tt → IsDisjoint a b
unfolding validate_pair
validate_pair-apart a b h = (
  not_starts-IsInside a.canonical_path b.canonical_path (ground arith),
  not_starts-IsInside b.canonical_path a.canonical_path (ground arith),
)

IsDisjoint-sym : (a b : CanonicalRoot) → IsDisjoint a b → IsDisjoint b a
IsDisjoint-sym a b (h, g) = (g, h)

later-not-IsInside :
    (a b c : CanonicalRoot)
    → IsDisjoint a b
    → root_le a b ≡ true
    → root_le b c ≡ true
    → ¬ IsInside a.canonical_path c.canonical_path
later-not-IsInside a b c apart h g (rest, inside) =
    apart.0 (path_le-between a.canonical_path b.canonical_path c.canonical_path rest inside h g)

-- A directory that holds the first of three in order has the components of the second.
later-not_around :
    (a b c : CanonicalRoot)
    → IsDisjoint a b
    → root_le a b ≡ true
    → root_le b c ≡ true
    → ¬ IsInside c.canonical_path a.canonical_path
later-not_around a b c apart h g (rest, inside) =
    let before = path_le-inside c.canonical_path a.canonical_path rest inside in
    let same =
      path_le-antisym b.canonical_path c.canonical_path g
        (path_le_trans c.canonical_path a.canonical_path b.canonical_path before h) in
    apart.1 (rest, rw same inside)

-- Of sorted roots the first is apart from all where it is apart from the second.
first-IsDisjoint :
    (a b : CanonicalRoot) (roots : List CanonicalRoot)
    → IsDisjoint a b
    → root_le a b ≡ true
    → All (λ c. root_le b c ≡ true) roots
    → All (IsDisjoint a) roots
first-IsDisjoint a b [] apart h below = tt
first-IsDisjoint a b (c ∷ roots) apart h below = (
  (later-not-IsInside a b c apart h below.0, later-not_around a b c apart h below.0),
  first-IsDisjoint a b roots apart h below.1,
)

validate_pairs-IsDisjoint :
    (roots : List CanonicalRoot)
    → Pairs (λ a b. root_le a b ≡ true) roots
    → validate_pairs roots ≡ ok tt
    → Pairs IsDisjoint roots
unfolding validate_pairs
validate_pairs-IsDisjoint [] sorted h = tt
validate_pairs-IsDisjoint (a ∷ []) sorted h = (tt, tt)
validate_pairs-IsDisjoint (a ∷ b ∷ roots) sorted h =
    let first : validate_pair a b ≡ ok tt = ground arith in
    let apart = validate_pair-apart a b first in
    (
      (apart, first-IsDisjoint a b roots apart sorted.0.0 sorted.1.0),
      validate_pairs-IsDisjoint (b ∷ roots) sorted.1 (ground arith),
    )

-- When the test of adjacent pairs of the sorted canonical roots succeeds, no root is the same
-- directory as another or lies in another.
pub validate_canonical_roots_non_overlapping-IsDisjoint :
    (roots : List CanonicalRoot)
    → validate_canonical_roots_non_overlapping roots ≡ ok tt
    → Pairs IsDisjoint roots
unfolding validate_canonical_roots_non_overlapping
validate_canonical_roots_non_overlapping-IsDisjoint roots h =
    sort-Pairs root_le IsDisjoint IsDisjoint-sym roots (
      validate_pairs-IsDisjoint (sort root_le roots)
        (sort-IsSorted (λ a b. path_le-total a.canonical_path b.canonical_path)
          (λ a b c. path_le_trans a.canonical_path b.canonical_path c.canonical_path) roots)
        h)
