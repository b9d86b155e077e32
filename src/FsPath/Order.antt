-- ===== src/FsPath/Order.antt =====
-- `Path::cmp` of the standard library: paths are compared by their components.
use omne_runtime.Base.{Bytes, ℕ, Bool, true, false, leb, ◌≡◌, List, [], ◌∷◌, ◌++◌, refl}
use mathlib.Core.Path.{subst}
use omne_runtime.Base.Order.{
  IsLinear, leb-IsLinear, lex_le, lex_le-IsLinear, key-IsLinear, lex_le-between, lex_le-append,
}
use omne_runtime.FsPath.{Component, root_dir, cur_dir, parent_dir, normal, components}

-- The derived order of `std::path::Component`: of the variants, then of a segment's bytes.
abbrev component_key : Component → List ℕ
component_key root_dir = 0 ∷ []
component_key cur_dir = 1 ∷ []
component_key parent_dir = 2 ∷ []
component_key (normal s) = 3 ∷ s

abbrev component_le : Component → Component → Bool
component_le a b = lex_le leb (component_key a) (component_key b)

-- `a.cmp(b)` is not `Greater`.
unfoldable pub path_le : Bytes → Bytes → Bool
path_le a b = lex_le component_le (components a) (components b)

component_key-injective : (a b : Component) → component_key a ≡ component_key b → a ≡ b
component_key-injective root_dir root_dir h = refl
component_key-injective root_dir cur_dir h = cc
component_key-injective root_dir parent_dir h = cc
component_key-injective root_dir (normal t) h = cc
component_key-injective cur_dir root_dir h = cc
component_key-injective cur_dir cur_dir h = refl
component_key-injective cur_dir parent_dir h = cc
component_key-injective cur_dir (normal t) h = cc
component_key-injective parent_dir root_dir h = cc
component_key-injective parent_dir cur_dir h = cc
component_key-injective parent_dir parent_dir h = refl
component_key-injective parent_dir (normal t) h = cc
component_key-injective (normal s) root_dir h = cc
component_key-injective (normal s) cur_dir h = cc
component_key-injective (normal s) parent_dir h = cc
component_key-injective (normal s) (normal t) h = cc

component_le-IsLinear : IsLinear component_le
component_le-IsLinear =
    key-IsLinear (lex_le-IsLinear leb-IsLinear) component_key component_key-injective

components_le-IsLinear : IsLinear (lex_le component_le)
components_le-IsLinear = lex_le-IsLinear component_le-IsLinear

pub path_le-total : (a b : Bytes) → path_le a b ≡ false → path_le b a ≡ true
unfolding path_le
path_le-total a b = components_le-IsLinear.total (components a) (components b)

-- A path is before every path inside it.
pub path_le-inside :
    (a b : Bytes) (rest : List Component) → components b ≡ components a ++ rest → path_le a b ≡ true
unfolding path_le
path_le-inside a b rest inside = rw inside (lex_le-append component_le-IsLinear (components a) rest)

pub path_le_trans : (a b c : Bytes) → path_le a b ≡ true → path_le b c ≡ true → path_le a c ≡ true
unfolding path_le
path_le_trans a b c = components_le-IsLinear.trans (components a) (components b) (components c)

-- A path between another and one inside that other is inside it too.
pub path_le-between :
    (a b c : Bytes) (rest : List Component)
    → components c ≡ components a ++ rest
    → path_le a b ≡ true
    → path_le b c ≡ true
    → (rest' : List Component) × (components b ≡ components a ++ rest')
unfolding path_le
path_le-between a b c rest inside h g =
    lex_le-between component_le-IsLinear (components a) (components b) rest h
      (subst (λ cs. lex_le component_le (components b) cs ≡ true) inside g)

-- Paths that are before each other have the same components.
pub path_le-antisym :
    (a b : Bytes) → path_le a b ≡ true → path_le b a ≡ true → components a ≡ components b
unfolding path_le
path_le-antisym a b = components_le-IsLinear.antisym (components a) (components b)
