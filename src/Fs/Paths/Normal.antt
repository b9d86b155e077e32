-- ===== src/Fs/Paths/Normal.antt =====
-- The normal form that `normalize_path_lexical_inner` gives.
use omne_runtime.Base.{
  ap, Bool-cases, Bytes, ◌&&◌, ◌∙◌, not, ||-eq_false, ◌≡◌, any, List, Bool, true, false, [], ◌∷◌,
  ◌++◌, refl, inl, inr,
}
use omne_runtime.Fs.Paths.{
  components, normalize_path_lexical_inner, parent_segment, push_parent, normal_segment, normal,
  Segment, normalize_components, normalize_component, NormalizedPathParts,
}
use omne_runtime.FsPath.{is_absolute, parent_dir, cur_dir, root_dir, Component}
use omne_runtime.FsPath.Laws.{components-relative, components-absolute, is_root_dir}

-- The segments of a normal form, last first: names, and below them, only in a relative path, `..`.
unfoldable pub only_parents : List Segment → Bool
only_parents [] = true
only_parents (parent_segment ∷ segments) = only_parents segments
only_parents (normal_segment part ∷ segments) = false

unfoldable pub is_normal_form : Bool → List Segment → Bool
is_normal_form has_root [] = true
is_normal_form has_root (normal_segment part ∷ segments) = is_normal_form has_root segments
is_normal_form has_root (parent_segment ∷ segments) = not has_root && only_parents segments

abbrev pub IsNormalForm : NormalizedPathParts → Type 0
IsNormalForm parts = is_normal_form parts.has_root parts.reversed_segments ≡ true

-- `..` closes a segment, stays below the root, or is kept where nothing can be closed.
push_parent_normal :
    (has_root : Bool) (segments : List Segment)
    → is_normal_form has_root segments ≡ true
    → is_normal_form has_root (push_parent has_root segments) ≡ true
unfolding is_normal_form only_parents
push_parent_normal has_root (normal_segment part ∷ segments) h = h
push_parent_normal true [] h = refl
push_parent_normal true (parent_segment ∷ segments) h = h
push_parent_normal false [] h = refl
push_parent_normal false (parent_segment ∷ segments) h = h

normalize_component-IsNormalForm :
    (parts : NormalizedPathParts) (c : Component)
    → is_root_dir c ≡ false
    → IsNormalForm parts
    → IsNormalForm (normalize_component parts c)
      × ((normalize_component parts c).has_root ≡ parts.has_root)
unfolding normalize_component is_normal_form
normalize_component-IsNormalForm parts root_dir r h = cc
normalize_component-IsNormalForm parts cur_dir r h = (h, refl)
normalize_component-IsNormalForm parts parent_dir r h =
    (push_parent_normal parts.has_root parts.reversed_segments h, refl)
normalize_component-IsNormalForm parts (normal part) r h = (h, refl)

normalize_components-IsNormalForm :
    (parts : NormalizedPathParts) (cs : List Component)
    → any is_root_dir cs ≡ false
    → IsNormalForm parts
    → IsNormalForm (normalize_components parts cs)
      × ((normalize_components parts cs).has_root ≡ parts.has_root)
unfolding normalize_components
normalize_components-IsNormalForm parts [] r h = (h, refl)
normalize_components-IsNormalForm parts (c ∷ cs) r h =
    let (plain, rest) = ||-eq_false (is_root_dir c) (any is_root_dir cs) r in
    let (step, kept) = normalize_component-IsNormalForm parts c plain h in
    let (done, same) =
      normalize_components-IsNormalForm (normalize_component parts c) cs rest step in
    (done, same ∙ kept)

-- Lexical normalisation leaves parent segments only in front, and none where the path is absolute;
-- it keeps whether the path is absolute.
pub normalize_path_lexical_inner-IsNormalForm :
    (path : Bytes)
    → IsNormalForm (normalize_path_lexical_inner path)
      × ((normalize_path_lexical_inner path).has_root ≡ is_absolute path)
unfolding normalize_path_lexical_inner is_normal_form normalize_components normalize_component
normalize_path_lexical_inner-IsNormalForm path = elim (Bool-cases (is_absolute path)) [
  | inl e ↦
      let (cs, split_off, plain) = components-absolute path e in
      rw (split_off, e)
        (normalize_components-IsNormalForm (record { has_root = true; reversed_segments = [] }) cs
          plain refl)
  | inr e ↦ rw e (
      normalize_components-IsNormalForm (record { has_root = false; reversed_segments = [] })
        (components path) (components-relative path e) refl)
]

-- The components of a normal form, behind its root.
abbrev pub segment_component : Segment → Component
segment_component parent_segment = parent_dir
segment_component (normal_segment part) = normal part

abbrev pub forward : List Segment → List Component
forward [] = []
forward (s ∷ segments) = forward segments ++ segment_component s ∷ []

normalize_components-append :
    (parts : NormalizedPathParts) (cs ds : List Component)
    → normalize_components parts (cs ++ ds)
      ≡ normalize_components (normalize_components parts cs) ds
unfolding normalize_components
normalize_components-append parts [] ds = refl
normalize_components-append parts (c ∷ cs) ds =
    normalize_components-append (normalize_component parts c) cs ds

only_parents-normal :
    (segments : List Segment) → only_parents segments ≡ true → is_normal_form false segments ≡ true
unfolding only_parents is_normal_form
only_parents-normal [] h = refl
only_parents-normal (parent_segment ∷ segments) h = h
only_parents-normal (normal_segment part ∷ segments) h = cc

push_parent-only_parents :
    (segments : List Segment)
    → only_parents segments ≡ true
    → push_parent false segments ≡ parent_segment ∷ segments
unfolding only_parents
push_parent-only_parents [] h = refl
push_parent-only_parents (parent_segment ∷ segments) h = refl
push_parent-only_parents (normal_segment part ∷ segments) h = cc

normalize_components-forward :
    (has_root : Bool) (segments : List Segment)
    → is_normal_form has_root segments ≡ true
    → normalize_components
        (record { has_root = has_root; reversed_segments = [] })
        (forward segments)
      ≡ record { has_root = has_root; reversed_segments = segments }
unfolding is_normal_form normalize_components normalize_component
normalize_components-forward has_root [] h = refl
normalize_components-forward has_root (normal_segment part ∷ segments) h =
    normalize_components-append _ (forward segments) (normal part ∷ [])
    ∙ ap (λ p. normalize_component p (normal part))
        (normalize_components-forward has_root segments h)
normalize_components-forward true (parent_segment ∷ segments) h = cc
normalize_components-forward false (parent_segment ∷ segments) h =
    normalize_components-append _ (forward segments) (parent_dir ∷ [])
    ∙ ap (λ p. normalize_component p parent_dir)
        (normalize_components-forward false segments (only_parents-normal segments h))
    ∙ ap (λ l. record { has_root = false; reversed_segments = l })
        (push_parent-only_parents segments h)

-- Normalising the segments of a path in normal form once more changes nothing.
pub normalize_components-normalized :
    (path : Bytes)
    → let parts = normalize_path_lexical_inner path in
      normalize_components
        (record { has_root = parts.has_root; reversed_segments = [] })
        (forward parts.reversed_segments)
      ≡ parts
normalize_components-normalized path =
    let (normal_form, rooted) = normalize_path_lexical_inner-IsNormalForm path in
    normalize_components-forward (normalize_path_lexical_inner path).has_root
      (normalize_path_lexical_inner path).reversed_segments normal_form
