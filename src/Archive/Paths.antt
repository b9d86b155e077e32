-- ===== src/Archive/Paths.antt =====
-- The paths that the sanitising of archive_tree.rs, in both crates, lets through.
use omne_runtime.Base.{
  some, refl, err, ◌∙◌, if◌then◌else◌, sym, false, ap, >>=-eq_ok, arith, all-append, &&-eq_true,
  ◌≡◌, true, List, [], ◌∷◌, ◌++◌, Bytes, all, ok,
}
use omne_runtime.Archive.{sanitize_path, sanitize_components}
use omne_runtime.FsPath.{
  file_name, parent, components, parent_dir, root_dir, cur_dir, normal, Component,
}
use omne_runtime.FsPath.Segments.{components-is_proper, path_of, is_proper, is_segment}
use omne_runtime.FsPath.Segments.Parents.{file_name-path_of, parent-path_of, push-path_of}
use omne_runtime.Text.{is_empty}

-- A relative path that names something below the root: one or more segments, none `.` or `..`
pub record IsEntryPath (path : Bytes) : Type 0 where
  pub segments : List Bytes
  pub proper : all is_segment segments ≡ true
  pub nonempty : is_empty path ≡ false
  pub made_of : path ≡ path_of segments

sanitize_components-path_of :
    {E : Type 0} (escapes : E) (ss : List Bytes) (cs : List Component) {path : Bytes}
    → all is_segment ss ≡ true
    → all is_proper cs ≡ true
    → sanitize_components escapes (path_of ss) cs ≡ ok path
    → (segments : List Bytes) × (all is_segment segments ≡ true) × (path ≡ path_of segments)
unfolding sanitize_components
sanitize_components-path_of escapes ss [] h proper e = (ss, h, cc)
sanitize_components-path_of escapes ss (normal part ∷ cs) h proper e =
    let (one, rest) = &&-eq_true (is_segment part) (all is_proper cs) proper in
    let pushed = push-path_of ss part h one in
    let whole = all-append is_segment ss (part ∷ []) in
    sanitize_components-path_of escapes (ss ++ part ∷ []) cs (ground arith) rest
      (ap (λ r. sanitize_components escapes r cs) (sym pushed) ∙ e)
sanitize_components-path_of escapes ss (cur_dir ∷ cs) h proper e =
    sanitize_components-path_of escapes ss cs h proper e
sanitize_components-path_of escapes ss (root_dir ∷ cs) h proper e = cc
sanitize_components-path_of escapes ss (parent_dir ∷ cs) h proper e = cc

pub sanitize_path-IsEntryPath :
    {E : Type 0} (escapes empty : E) (path : Bytes) {sanitized : Bytes}
    → sanitize_path escapes empty path ≡ ok sanitized
    → IsEntryPath sanitized
sanitize_path-IsEntryPath {E} escapes empty path {sanitized} h =
    let (found, looped, kept) =
      >>=-eq_ok (sanitize_components escapes [] (components path))
        (λ sanitized. if is_empty sanitized then err empty else ok sanitized) h in
    let (segments, proper, made_of) =
      sanitize_components-path_of escapes [] (components path) refl (components-is_proper path)
        looped in
    let same : sanitized ≡ found = ground arith in
    record {
      segments = segments;
      proper = proper;
      nonempty = ground arith;
      made_of = same ∙ made_of;
    }

-- An entry path is a name in a directory below the root.
pub record IsNameIn (path : Bytes) : Type 0 where
  pub dir : List Bytes
  pub name : Bytes
  pub dir_proper : all is_segment dir ≡ true
  pub name_proper : is_segment name ≡ true
  pub path_parent : parent path ≡ some (path_of dir)
  pub path_name : file_name path ≡ some name

pub last_split :
    (s : Bytes) (ss : List Bytes)
    → (front : List Bytes) × (last : Bytes) × (s ∷ ss ≡ front ++ last ∷ [])
last_split s [] = ([], s, refl)
last_split s (t ∷ ts) =
    let (front, last, e) = last_split t ts in (s ∷ front, last, ap (λ r. s ∷ r) e)

segments-IsNameIn :
    (segments : List Bytes) {path : Bytes}
    → all is_segment segments ≡ true
    → is_empty path ≡ false
    → path ≡ path_of segments
    → IsNameIn path
segments-IsNameIn [] proper nonempty made_of = absurd (ground arith)
segments-IsNameIn (s ∷ ss) {path} proper nonempty made_of =
    let (front, last, e) = last_split s ss in
    let whole = ap (all is_segment) (sym e) ∙ proper in
    let parts = all-append is_segment front (last ∷ []) in
    let dir_proper : all is_segment front ≡ true = ground arith in
    let name_proper : is_segment last ≡ true = ground arith in
    let named = made_of ∙ ap path_of e in
    record {
      dir = front;
      name = last;
      dir_proper = dir_proper;
      name_proper = name_proper;
      path_parent = ap parent named ∙ parent-path_of front last dir_proper name_proper;
      path_name = ap file_name named ∙ file_name-path_of front last dir_proper name_proper;
    }

pub IsEntryPath-IsNameIn : (path : Bytes) → IsEntryPath path → IsNameIn path
IsEntryPath-IsNameIn path entry =
    segments-IsNameIn entry.segments entry.proper entry.nonempty entry.made_of
