-- ===== src/Archive/Walk/Limits.antt =====
-- archive_tree.rs: what a visitor is given, whatever it answers. Its answers are a function of what it
-- was given before, and its state is the record of that.
use omne_runtime.Base.{
  ◌-◌, ◌^◌, ◌≡◌, ◌<◌, arith, ◌≤◌, Option, ℕ, ◌+◌, List, [], ◌∷◌, Text, Bytes, Result, ok, err,
  length,
}
use omne_runtime.Base.Actions.{Action, Triple, Outcome-either}
use omne_runtime.Archive.{
  reserve_bytes, record_entry, ArchiveTreeBudget, ArchiveTreeExtractionLimits,
}
use omne_runtime.Archive.Paths.{IsEntryPath}
use omne_runtime.Archive.Walk.{ZipEntry, TarEntry, ArchiveTreeVisitor}

pub data Visit : Type 0 where
  directory : Bytes → Visit
  regular_file : Bytes → Result Text Bytes → Option ℕ → Visit
  symlink : (path target : Bytes) → Visit
  hard_link : (path target : Bytes) → Visit

abbrev pub visit_path : Visit → Bytes
visit_path (directory path) = path
visit_path (regular_file path content unix_mode) = path
visit_path (symlink path target) = path
visit_path (hard_link path target) = path

abbrev pub content_size : Result Text Bytes → ℕ
content_size (ok content) = length content
content_size (err e) = 0

-- The bytes that a visit hands over
abbrev pub visit_size : Visit → ℕ
visit_size (regular_file path content unix_mode) = content_size content
visit_size _ = 0

abbrev pub total_size : List Visit → ℕ
total_size [] = 0
total_size (v ∷ vs) = visit_size v + total_size vs

module _ {E : Type 0} (answer : List Visit → Result E (Unit {0})) where
  abbrev pub note : Visit → Action (List Visit) E (Unit {0})
  note v visits = (answer (v ∷ visits), v ∷ visits)

  -- A visitor that keeps a record, the last visit first
  abbrev pub recorder : ArchiveTreeVisitor (List Visit) E
  recorder = record {
    visit_directory = λ path. note (directory path);
    visit_regular_file = λ path content unix_mode. note (regular_file path content unix_mode);
    visit_symlink = λ path target. note (symlink path target);
    visit_hard_link = λ path target. note (hard_link path target);
  }

abbrev pub AllVisits : (Bytes → Type 0) → List Visit → Type 0
AllVisits P [] = Unit
AllVisits P (v ∷ vs) = P (visit_path v) × AllVisits P vs

pub record IsWithin (limits : ArchiveTreeExtractionLimits) (visits : List Visit) : Type 0 where
  pub paths : AllVisits IsEntryPath visits
  pub few : length visits ≤ limits.max_entries
  pub small : total_size visits ≤ limits.max_extracted_bytes

-- The content of each file is no longer than its header says.
abbrev pub IsSizedTar : Result Text TarEntry → Type 0
IsSizedTar (ok entry) = content_size entry.content ≤ entry.size
IsSizedTar (err e) = Unit

abbrev pub IsSizedZip : Result Text ZipEntry → Type 0
IsSizedZip (ok entry) = content_size entry.content ≤ entry.size
IsSizedZip (err e) = Unit

abbrev pub AllSized : {A : Type 0} → (A → Type 0) → List A → Type 0
AllSized P [] = Unit
AllSized P (x ∷ xs) = P x × AllSized P xs

-- A budget that covers the visits, with room for `k` more and for `z` more bytes.
pub record IsCovered (limits : ArchiveTreeExtractionLimits) (k z : ℕ) (budget : ArchiveTreeBudget)
    (visits : List Visit) : Type 0 where
  pub paths : AllVisits IsEntryPath visits
  pub counted : length visits + k ≤ budget.entries
  pub sized : total_size visits + z ≤ budget.extracted_bytes
  pub entry_limit : budget.entries ≤ limits.max_entries
  pub byte_limit : budget.extracted_bytes ≤ limits.max_extracted_bytes
  pub same_limits : budget.limits ≡ limits

module _ (limits : ArchiveTreeExtractionLimits) where
  pub IsCovered-IsWithin :
      (k z : ℕ) (budget : ArchiveTreeBudget) (visits : List Visit)
      → IsCovered limits k z budget visits
      → IsWithin limits visits
  IsCovered-IsWithin k z budget visits c = record {
    paths = c.paths;
    few = omega (arith, c.counted, c.entry_limit);
    small = omega (arith, c.sized, c.byte_limit);
  }

  module _ {E : Type 0} where
    pub record_entry-IsCovered :
        (budget : ArchiveTreeBudget) (path : Bytes) (counted : ArchiveTreeBudget)
        (visits : List Visit)
        → limits.max_entries < 2 ^ 64 - 1
        → record_entry {E = E} budget path ≡ ok counted
        → IsCovered limits 0 0 budget visits
        → IsCovered limits 1 0 counted visits
    unfolding record_entry
    record_entry-IsCovered budget path counted visits small h c = record {
      paths = c.paths;
      counted = ground arith;
      sized = ground arith;
      entry_limit = ground arith;
      byte_limit = ground arith;
      same_limits = ground arith;
    }

    pub reserve_bytes-IsCovered :
        (budget : ArchiveTreeBudget) (path : Bytes) (size : ℕ) (reserved : ArchiveTreeBudget)
        (visits : List Visit)
        → reserve_bytes {E = E} budget path size ≡ ok reserved
        → IsCovered limits 1 0 budget visits
        → IsCovered limits 1 size reserved visits
    unfolding reserve_bytes
    reserve_bytes-IsCovered budget path size reserved visits h c = record {
      paths = c.paths;
      counted = ground arith;
      sized = ground arith;
      entry_limit = ground arith;
      byte_limit = ground arith;
      same_limits = ground arith;
    }

    module _ (answer : List Visit → Result E (Unit {0})) where
      pub visit-IsCovered :
          (z : ℕ) (budget : ArchiveTreeBudget) (v : Visit)
          → IsEntryPath (visit_path v)
          → visit_size v ≤ z
          → Triple
              (IsWithin limits)
              (IsCovered limits 1 z budget)
              (λ u. IsCovered limits 0 0 budget)
              (note answer v)
      visit-IsCovered z budget v path size visits c =
          let covered : IsCovered limits 0 0 budget (v ∷ visits) = record {
            paths = (path, c.paths);
            counted = omega (arith, c.counted);
            sized = omega (arith, c.sized, size);
            entry_limit = c.entry_limit;
            byte_limit = c.byte_limit;
            same_limits = c.same_limits;
          } in
          Outcome-either (IsWithin limits) (λ u. IsCovered limits 0 0 budget) (answer (v ∷ visits))
            (v ∷ visits) (λ u. covered) (IsCovered-IsWithin 0 0 budget (v ∷ visits) covered)
