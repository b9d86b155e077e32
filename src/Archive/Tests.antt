-- ===== src/Archive/Tests.antt =====
-- An archive with a directory, a file and a link.
use omne_runtime.Base.{◌≡◌, refl, none, some, [], ◌∷◌, codes, List, ok, err, Result, arith, Text}
use omne_runtime.Archive.{default_extraction_limits}
use omne_runtime.Archive.Walk.{
  symlink_entry, file_entry, dir_entry, walk_archive_tree, TarEntry, Archives,
}
use omne_runtime.Archive.Walk.Bounds.{walk_archive_tree-IsWithin}
use omne_runtime.Archive.Walk.Limits.{directory, regular_file, symlink, recorder, Visit, IsWithin}

abbrev tool_dir : TarEntry
unfolding codes
tool_dir = record {
  path = ok (codes "./tool/");
  entry_type = dir_entry;
  size = 0;
  mode = ok 493;
  link_name = ok none;
  content = ok [];
}

abbrev tool_file : TarEntry
unfolding codes
tool_file = record {
  path = ok (codes "tool/run");
  entry_type = file_entry;
  size = 3;
  mode = ok 493;
  link_name = ok none;
  content = ok (1 ∷ 2 ∷ 3 ∷ []);
}

abbrev tool_link : TarEntry
unfolding codes
tool_link = record {
  path = ok (codes "tool/latest");
  entry_type = symlink_entry;
  size = 0;
  mode = ok 511;
  link_name = ok (some (codes "../tool/run"));
  content = ok [];
}

abbrev tool_archives : Archives
tool_archives = record { tar = ok (ok tool_dir ∷ ok tool_file ∷ ok tool_link ∷ []); zip = err [] }

abbrev agreeable : List Visit → Result Text (Unit {0})
agreeable visits = ok tt

tool_visits :
    (walk_archive_tree
      (codes "tool.tar.gz")
      tool_archives
      default_extraction_limits
      (recorder agreeable)
      []).1
    ≡ symlink (codes "tool/latest") (codes "../tool/run")
      ∷ regular_file (codes "tool/run") (ok (1 ∷ 2 ∷ 3 ∷ [])) (some 493)
      ∷ directory (codes "tool")
      ∷ []
unfolding walk_archive_tree codes omne_runtime.Archive.from_asset_name
    omne_runtime.Text.strip_suffix omne_runtime.FsPath.components
tool_visits = refl

walk_archive_tree-IsWithin_example :
    IsWithin default_extraction_limits
      (walk_archive_tree
        (codes "tool.tar.gz")
        tool_archives
        default_extraction_limits
        (recorder agreeable)
        []).1
unfolding tool_dir tool_file tool_link
walk_archive_tree-IsWithin_example =
    walk_archive_tree-IsWithin default_extraction_limits agreeable (codes "tool.tar.gz")
      tool_archives (omega arith) (omega arith, (omega arith, (omega arith, tt))) tt
