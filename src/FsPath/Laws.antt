-- ===== src/FsPath/Laws.antt =====
-- Laws of the path comparisons: equality and prefix of whole components.
use omne_runtime.Base.{
  ◌∙◌, ap, inr, inl, text_eq, Bool-cases, false, any, Bool, ◌≡◌, refl, ◌↔◌, true, List, [], ◌∷◌,
  ◌++◌, Bytes, text_eq_iff, arith,
}
use omne_runtime.FsPath.{
  split, root_dir, is_absolute, body_component, relative_components, components, body_components,
  Component, path_components, components_eq, components_start_with, path_equals, path_starts_with,
}

components_start_with→rest :
    (xs ys : List Bytes) → components_start_with xs ys ≡ true → (zs : List Bytes) × (xs ≡ ys ++ zs)
unfolding components_start_with
components_start_with→rest xs [] h = (xs, refl)
components_start_with→rest [] (y ∷ ys) h = cc
components_start_with→rest (x ∷ xs) (y ∷ ys) h =
    let t = components_start_with→rest xs ys (ground arith) in
    (t.0, ground (arith, text_eq_iff x y, t.1))

components_start_with-append : (ys zs : List Bytes) → components_start_with (ys ++ zs) ys ≡ true
unfolding components_start_with
components_start_with-append [] zs = refl
components_start_with-append (y ∷ ys) zs =
    ground (arith, text_eq_iff y y, components_start_with-append ys zs)

-- A path starts with another exactly when its components are the other's and then more.
pub path_starts_with_iff :
    (path prefix : Bytes)
    → (path_starts_with path prefix ≡ true)
      ↔ ((rest : List Bytes) × (path_components path ≡ path_components prefix ++ rest))
unfolding path_starts_with
path_starts_with_iff path prefix = (
  components_start_with→rest (path_components path) (path_components prefix),
  λ t. rw (t.1) (components_start_with-append (path_components prefix) t.0),
)

components_eq→eq : (xs ys : List Bytes) → components_eq xs ys ≡ true → xs ≡ ys
unfolding components_eq
components_eq→eq [] [] h = refl
components_eq→eq [] (y ∷ ys) h = cc
components_eq→eq (x ∷ xs) [] h = cc
components_eq→eq (x ∷ xs) (y ∷ ys) h = ground (arith, text_eq_iff x y, components_eq→eq xs ys)

components_eq_refl : (xs : List Bytes) → components_eq xs xs ≡ true
unfolding components_eq
components_eq_refl [] = refl
components_eq_refl (x ∷ xs) = ground (arith, text_eq_iff x x, components_eq_refl xs)

pub path_equals_iff :
    (lhs rhs : Bytes) → (path_equals lhs rhs ≡ true) ↔ (path_components lhs ≡ path_components rhs)
unfolding path_equals
path_equals_iff lhs rhs =
    (components_eq→eq _ _, λ e. rw e (components_eq_refl (path_components rhs)))

abbrev pub is_root_dir : Component → Bool
is_root_dir root_dir = true
is_root_dir _ = false

-- A root stands only at the front of a path.
body_components-no_root : (ss : List Bytes) → any is_root_dir (body_components ss) ≡ false
unfolding body_components body_component
body_components-no_root [] = refl
body_components-no_root (s ∷ ss) = elim (Bool-cases (text_eq s [])) [
  | inl e ↦ rw e (body_components-no_root ss)
  | inr e ↦ elim (Bool-cases (text_eq s (b'.' ∷ []))) [
    | inl f ↦ rw (e, f) (body_components-no_root ss)
    | inr f ↦ elim (Bool-cases (text_eq s (b'.' ∷ b'.' ∷ []))) [
      | inl g ↦ rw (e, f, g) (body_components-no_root ss)
      | inr g ↦ rw (e, f, g) (body_components-no_root ss)
    ]
  ]
]

pub components-absolute :
    (path : Bytes)
    → is_absolute path ≡ true
    → (cs : List Component) × (components path ≡ root_dir ∷ cs) × (any is_root_dir cs ≡ false)
unfolding components
components-absolute path h =
    (body_components (split b'/' path), rw h refl, body_components-no_root (split b'/' path))

relative_components-no_root : (ss : List Bytes) → any is_root_dir (relative_components ss) ≡ false
unfolding relative_components
relative_components-no_root [] = refl
relative_components-no_root (s ∷ ss) = elim (Bool-cases (text_eq s (b'.' ∷ []))) [
  | inl e ↦ rw e (body_components-no_root ss)
  | inr e ↦
      let same : relative_components (s ∷ ss) ≡ body_components (s ∷ ss) = ground arith in
      ap (any is_root_dir) same ∙ body_components-no_root (s ∷ ss)
]

pub components-relative :
    (path : Bytes) → is_absolute path ≡ false → any is_root_dir (components path) ≡ false
unfolding components
components-relative path h = rw (h, components) (relative_components-no_root (split b'/' path))
