-- ===== src/Install/Tests.antt =====
-- An extraction of an archive with a file, a symbolic link and a hard link, on a system that agrees to all.
use omne_runtime.Base.{
  is_ok, Option, ◌≡◌, refl, true, false, none, some, [], ◌∷◌, codes, Bytes, ok, err, arith,
}
use omne_runtime.Archive.{default_extraction_limits}
use omne_runtime.Archive.Walk.{
  EntryType, TarEntry, file_entry, symlink_entry, hard_link_entry, Archives,
}
use omne_runtime.Install.{not_found, System, Machine, IoError}
use omne_runtime.Install.Confined.{IsConfined}
use omne_runtime.Install.Confined.Tree.{extract_archive_tree_into_root-IsConfined}
use omne_runtime.Install.Extract.{extract_archive_tree_into_root}
use omne_runtime.Install.Links.{PendingTarHardLink}
use omne_runtime.Install.Rounds.{resolve_pending_tar_hard_links_stable}
use omne_runtime.Install.Tree.{resolve_pending_tar_hard_links}

abbrev no_entry : IoError
no_entry = record { kind = not_found; message = [] }

-- Directories open, nothing else is there, and every other call succeeds.
abbrev agreeable : System
agreeable = record {
  open_directory_component = λ calls. ok tt;
  open_regular_file_at = λ calls. ok (ok (record { is_file = true; dev = 1; ino = 7 }));
  symlink_metadata = λ calls. err no_entry;
  perform = λ calls. ok tt;
  process_id = 10;
  now = λ calls. 255;
}

abbrev entry_of : Bytes → EntryType → Option Bytes → TarEntry
entry_of path entry_type link_name = record {
  path = ok path;
  entry_type = entry_type;
  size = 2;
  mode = ok 420;
  link_name = ok link_name;
  content = ok (1 ∷ 2 ∷ []);
}

abbrev linked_archives : Archives
unfolding codes
linked_archives = record {
  tar = ok (
      ok (entry_of (codes "a/copy") hard_link_entry (some (codes "a/file")))
      ∷ ok (entry_of (codes "a/file") file_entry none)
      ∷ ok (entry_of (codes "a/link") symlink_entry (some (codes "../a/file")))
      ∷ []);
  zip = err [];
}

abbrev idle : Machine
idle = record { calls = []; staged_leaf_counter = 0 }

extraction_succeeds :
    (extract_archive_tree_into_root agreeable true
      (codes "x.tar.xz")
      linked_archives
      default_extraction_limits
      idle).0
    ≡ ok tt
unfolding extract_archive_tree_into_root codes omne_runtime.Archive.from_asset_name
    omne_runtime.Text.strip_suffix
extraction_succeeds = refl

-- A link that leads above the root is refused.
escape_refused :
    is_ok
      (extract_archive_tree_into_root agreeable true
        (codes "x.tar.xz")
        (record {
          tar = ok (ok (entry_of (codes "a/link") symlink_entry (some (codes "../../etc"))) ∷ []);
          zip = err [];
        })
        default_extraction_limits
        idle).0
    ≡ false
unfolding extract_archive_tree_into_root codes omne_runtime.Archive.from_asset_name
    omne_runtime.Text.strip_suffix
escape_refused = refl

extract_archive_tree_into_root-IsConfined_example :
    IsConfined
      (extract_archive_tree_into_root agreeable true
        (codes "x.tar.xz")
        linked_archives
        default_extraction_limits
        idle).1
extract_archive_tree_into_root-IsConfined_example =
    extract_archive_tree_into_root-IsConfined agreeable true (codes "x.tar.xz") linked_archives
      default_extraction_limits idle refl

abbrev waiting : PendingTarHardLink
unfolding codes
waiting = record {
  entry_path = codes "a/copy";
  output_path = codes "a/copy";
  link_target = codes "a/file";
  resolved_target = codes "a/file";
}

resolve_pending_tar_hard_links_stable_example :
    resolve_pending_tar_hard_links agreeable 1 none (waiting ∷ []) idle
    ≡ resolve_pending_tar_hard_links agreeable 5 none (waiting ∷ []) idle
resolve_pending_tar_hard_links_stable_example =
    resolve_pending_tar_hard_links_stable agreeable 1 5 none (waiting ∷ []) idle (omega arith)
      (omega arith)
