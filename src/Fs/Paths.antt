-- ===== src/Fs/Paths.antt =====
-- crates/omne-fs/src/path_utils.rs, as it is built on Unix: lexical normalisation of paths, the tests
-- by components, and the form of glob patterns.
pub mod Normal
use omne_runtime.Base.{
  drop, ◌-◌, text_eq, not, length, ensure, any, ◌||◌, ◌==◌, ◌&&◌, all, String, suc, if◌then◌else◌,
  Result, Option, ℕ, Text, List, Bytes, Bool, some, none, true, false, [], ◌∷◌, ◌++◌, err, ok,
  ◌>>=◌, ◌>>◌,
}
use Prim.Native.Nat.{zero}
use mathlib.Core.List.{reverse}
use omne_runtime.FsPath.{
  is_absolute, root_dir, path_starts_with, push, parent_dir, normal, cur_dir, components, Component,
}
use omne_runtime.Text.{split, starts_with, is_empty}

-- `while let Some(rest) = trimmed.strip_prefix("./")`. Each turn leaves a shorter text.
unfoldable pub strip_current_dirs : Text → Text
strip_current_dirs [] = []
strip_current_dirs (c ∷ []) = c ∷ []
strip_current_dirs (c ∷ d ∷ t) =
    let rest = strip_current_dirs t in if c == b'.' && d == b'/' then rest else c ∷ d ∷ t

-- `normalize_glob_pattern_for_matching`; `normalize_glob_pattern` changes nothing on Unix.
unfoldable pub normalize_glob_pattern_for_matching : Text → Text
normalize_glob_pattern_for_matching pattern =
    let trimmed = strip_current_dirs pattern in if is_empty trimmed then b'.' ∷ [] else trimmed

unfoldable pub validate_root_relative_glob_pattern : Text → Result String (Unit {0})
validate_root_relative_glob_pattern text = do
  ensure (not (starts_with (b'/' ∷ []) text))
      "glob patterns must be root-relative (must not start with '/')"
  ensure (not (any (λ segment. text_eq segment (b'.' ∷ b'.' ∷ [])) (split b'/' text)))
      "glob patterns must not contain '..' segments"

pub data Segment : Type 0 where
  parent_segment : Segment
  normal_segment : Bytes → Segment

-- `NormalizedPathParts`, with the last segment first; there is no prefix on Unix.
pub record NormalizedPathParts : Type 0 where
  pub has_root : Bool
  pub reversed_segments : List Segment

-- The arm of `Component::ParentDir`.
abbrev pub push_parent : Bool → List Segment → List Segment
push_parent has_root (normal_segment part ∷ segments) = segments
push_parent true [] = []
push_parent true (parent_segment ∷ segments) = parent_segment ∷ segments
push_parent false [] = parent_segment ∷ []
push_parent false (parent_segment ∷ segments) = parent_segment ∷ parent_segment ∷ segments

-- One turn of the loop of `normalize_path_lexical_inner`.
unfoldable pub normalize_component : NormalizedPathParts → Component → NormalizedPathParts
normalize_component parts cur_dir = parts
normalize_component parts parent_dir = record parts {
  reversed_segments = push_parent parts.has_root parts.reversed_segments;
}
normalize_component parts (normal part) = record parts {
  reversed_segments = normal_segment part ∷ parts.reversed_segments;
}
normalize_component parts root_dir = record parts { has_root = true }

unfoldable pub normalize_components : NormalizedPathParts → List Component → NormalizedPathParts
normalize_components parts [] = parts
normalize_components parts (c ∷ cs) = normalize_components (normalize_component parts c) cs

unfoldable pub normalize_path_lexical_inner : Bytes → NormalizedPathParts
normalize_path_lexical_inner path =
    normalize_components (record { has_root = false; reversed_segments = [] }) (components path)

abbrev pub segment_text : Segment → Bytes
segment_text parent_segment = b'.' ∷ b'.' ∷ []
segment_text (normal_segment part) = part

unfoldable pub push_segments : Bytes → List Segment → Bytes
push_segments out [] = out
push_segments out (s ∷ segments) = push_segments (push out (segment_text s)) segments

unfoldable pub reconstruct_path : Bytes → NormalizedPathParts → Bytes
reconstruct_path path parts =
    let out =
      push_segments (if parts.has_root then b'/' ∷ [] else []) (reverse parts.reversed_segments) in
    if is_empty out && not (is_absolute path) then b'.' ∷ [] else out

unfoldable pub normalize_path_lexical : Bytes → Bytes
normalize_path_lexical path = reconstruct_path path (normalize_path_lexical_inner path)

abbrev pub is_cur_dir : Component → Bool
is_cur_dir cur_dir = true
is_cur_dir _ = false

abbrev pub is_parent_dir : Component → Bool
is_parent_dir parent_dir = true
is_parent_dir _ = false

-- `normalized_for_boundary`: the path itself where it has neither `.` nor `..`. The loop's early exit
-- does not change its two flags' use.
unfoldable pub normalized_for_boundary : Bytes → Bytes
normalized_for_boundary path =
    let cs = components path in
    if all is_cur_dir cs
    then b'.' ∷ []
    else if any (λ c. is_cur_dir c || is_parent_dir c) cs
    then normalize_path_lexical path
    else path

-- A segment that is no component behind another.
abbrev pub is_skipped : Bytes → Bool
is_skipped s = is_empty s || text_eq s (b'.' ∷ [])

unfoldable pub drop_components : ℕ → List Bytes → List Bytes
drop_components zero ss = ss
drop_components (suc n) [] = []
drop_components (suc n) (s ∷ ss) = drop_components (if is_skipped s then suc n else n) ss

unfoldable pub trim_segments : List Bytes → List Bytes
trim_segments [] = []
trim_segments (s ∷ ss) = let rest = trim_segments ss in if is_skipped s then rest else s ∷ ss

unfoldable pub join_segments : List Bytes → Bytes
join_segments [] = []
join_segments (s ∷ []) = s
join_segments (s ∷ t ∷ ss) = s ++ b'/' ∷ join_segments (t ∷ ss)

-- `Path::strip_prefix` with a prefix that is not empty: the text of the path from its next component
-- to its last.
unfoldable pub strip_path_prefix : Bytes → Bytes → Option Bytes
strip_path_prefix path prefix =
    if path_starts_with path prefix
    then some (
        join_segments (
          reverse (
            trim_segments (
              reverse (
                trim_segments
                  (drop_components (length (components prefix) - 1) (drop 1 (split b'/' path))))))))
    else none

-- `starts_with_case_insensitive_normalized` is `Path::starts_with` on Unix, and
-- `strip_prefix_case_insensitive_normalized` is `Path::strip_prefix`.
unfoldable pub starts_with_case_insensitive : Bytes → Bytes → Bool
starts_with_case_insensitive path prefix =
    path_starts_with (normalized_for_boundary path) (normalized_for_boundary prefix)

-- `paths_equal_case_insensitive`
unfoldable pub paths_equal_case_insensitive : Bytes → Bytes → Bool
paths_equal_case_insensitive path other =
    let a = normalized_for_boundary path in
    let b = normalized_for_boundary other in path_starts_with a b && path_starts_with b a
