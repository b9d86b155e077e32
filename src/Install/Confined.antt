-- ===== src/Install/Confined.antt =====
-- archive_tree.rs of omne-artifact-install-primitives: the calls that stay below the root of the extraction.
pub mod Directories
pub mod Leaves
pub mod Links
pub mod HardLinks
pub mod Pending
pub mod Tree
use omne_runtime.Base.{
  ◌==◌, if◌then◌else◌, map_ok, arith, refl, ◌≡◌, ℕ, zero, suc, Bool, true, false, ◌&&◌, ◌||◌,
  Option, none, some, List, [], ◌∷◌, ◌++◌, length, Text, Bytes, Result, ok, err, text_eq, all,
}
use omne_runtime.Base.Actions.{
  map_error-Triple, Action, ◌>>=◌, ◌>>◌, lift, map_error, attempt, Triple, >>=-Triple, Outcome,
  Outcome-either,
}
use omne_runtime.FsPath.{Component, root_dir, cur_dir, parent_dir, normal, components}
use omne_runtime.FsPath.Segments.{is_segment}
use omne_runtime.Install.{
  logged, IoError, rename_leaf, make_hard_link, make_symlink, set_mode, write_file, remove_file,
  metadata_of, open_file, create_file, read_file_type, perform_call, open_regular, open_component,
  create_directory, open_directory, System, Machine, Dir, Call,
}

-- A target, from a directory so many names below the root: no `..` goes above the root.
unfoldable pub stays_below : ℕ → List Component → Bool
stays_below depth [] = true
stays_below depth (normal name ∷ cs) = stays_below (suc depth) cs
stays_below depth (cur_dir ∷ cs) = stays_below depth cs
stays_below zero (parent_dir ∷ cs) = false
stays_below (suc depth) (parent_dir ∷ cs) = stays_below depth cs
stays_below depth (root_dir ∷ cs) = false

abbrev pub is_below : Dir → Bytes → Bool
is_below dir name = all is_segment dir && is_segment name

-- A call whose names are single names, none `.` or `..`, and whose link, if it makes one, leads nowhere
-- above the root.
unfoldable pub is_confined : Call → Bool
unfolding stays_below components is_segment
is_confined (open_directory dir name) =
    is_below dir name || (length dir == 0 && text_eq name (b'.' ∷ []))
is_confined (create_directory dir name) = is_below dir name
is_confined (create_file dir name) = is_below dir name
is_confined (open_file dir name) = is_below dir name
is_confined (metadata_of dir name) = is_below dir name
is_confined (remove_file dir name) = is_below dir name
is_confined (write_file dir name content) = is_below dir name
is_confined (set_mode dir name mode) = is_below dir name
is_confined (make_symlink target dir name) =
    is_below dir name && stays_below (length dir) (components target)
is_confined (make_hard_link from from_name to to_name) =
    is_below from from_name && is_below to to_name
is_confined (rename_leaf dir from to) = is_below dir from && is_below dir to

abbrev pub IsConfined : Machine → Type 0
IsConfined machine = all is_confined machine.calls ≡ true

abbrev pub IsConfinedWith : {A : Type 0} → (A → Type 0) → A → Machine → Type 0
IsConfinedWith Q a machine = IsConfined machine × Q a

-- Code whose calls are confined, with a result that has `Q`
abbrev pub Confines : {E A : Type 0} → (A → Type 0) → Action Machine E A → Type 0
Confines Q = Triple IsConfined IsConfined (IsConfinedWith Q)

abbrev pub Holds : {E A : Type 0} → (A → Type 0) → Result E A → Type 0
Holds Q (ok a) = Q a
Holds Q (err e) = Unit

module _ {E A : Type 0} where
  pub >>=-Confines :
      {B : Type 0} (Q : A → Type 0) (R : B → Type 0) (m : Action Machine E A)
      (f : A → Action Machine E B)
      → Confines Q m
      → ((a : A) → Q a → Confines R (f a))
      → Confines R (m >>= f)
  >>=-Confines Q R m f first second =
      >>=-Triple IsConfined (IsConfinedWith Q) (IsConfinedWith R) m f first
        (λ a machine (safe, q). second a q machine safe)

  pub then-Confines :
      (R : A → Type 0) (m : Action Machine E (Unit {0})) (k : Action Machine E A)
      → Confines (λ u. Unit) m
      → Confines R k
      → Confines R (m >> k)
  then-Confines R m k first second =
      >>=-Triple IsConfined (IsConfinedWith (λ u. Unit)) (IsConfinedWith R) m (λ u. k) first
        (λ u machine (safe, v). second machine safe)

  pub lift-Confines : (Q : A → Type 0) (r : Result E A) → Holds Q r → Confines Q (lift r)
  lift-Confines Q (ok a) q machine safe = (safe, q)
  lift-Confines Q (err e) q machine safe = safe

  pub Holds-any : (r : Result E A) → Holds (λ a. Unit) r
  Holds-any (ok a) = tt
  Holds-any (err e) = tt

  -- A check before the rest
  pub check-Confines :
      {B : Type 0} (R : B → Type 0) (r : Result E A) (f : A → Action Machine E B)
      → ((a : A) → r ≡ ok a → Confines R (f a))
      → Confines R (lift r >>= f)
  check-Confines R (ok a) f h = h a refl
  check-Confines R (err e) f h = λ machine safe. safe

  pub if-Confines :
      (Q : A → Type 0) (b : Bool) (m n : Action Machine E A)
      → (b ≡ true → Confines Q m)
      → (b ≡ false → Confines Q n)
      → Confines Q (if b then m else n)
  if-Confines Q true m n first second = first refl
  if-Confines Q false m n first second = second refl

  attempt-Outcome :
      (Q : A → Type 0) (x : Result E A × Machine)
      → Outcome IsConfined (IsConfinedWith Q) x
      → IsConfinedWith (Holds Q) x.0 x.1
  attempt-Outcome Q (ok a, machine) h = h
  attempt-Outcome Q (err e, machine) h = (h, tt)

  pub attempt-Confines :
      (F : Type 0) (Q : A → Type 0) (m : Action Machine E A)
      → Confines Q m
      → Confines {E = F} (Holds Q) (attempt m)
  attempt-Confines F Q m h machine safe = attempt-Outcome Q (m machine) (h machine safe)

  pub map_error-Confines :
      {F : Type 0} (Q : A → Type 0) (m : Action Machine E A) (f : E → F)
      → Confines Q m
      → Confines Q (map_error m f)
  map_error-Confines Q m f h = map_error-Triple IsConfined (IsConfinedWith Q) m f h

-- A `match` on the result
pub match-Confines :
    {E F A B : Type 0} (Q : A → Type 0) (R : B → Type 0) (m : Action Machine E A)
    (f : Result E A → Action Machine F B)
    → Confines Q m
    → ((r : Result E A) → Holds Q r → Confines R (f r))
    → Confines R (attempt m >>= f)
match-Confines {E} {F} Q R m f first second =
    >>=-Confines {E = F} (Holds Q) R (attempt m) f (attempt-Confines F Q m first) second

map_ok-Holds :
    (dir : Dir) (r : Result IoError (Unit {0}))
    → Holds (λ opened. opened ≡ dir) (map_ok (λ u. dir) r)
map_ok-Holds dir (ok u) = refl
map_ok-Holds dir (err e) = tt

pub logged-IsConfined :
    (call : Call) (machine : Machine)
    → is_confined call ≡ true
    → IsConfined machine
    → IsConfined (logged call machine)
logged-IsConfined call machine h safe = rw h safe

-- A segment is not `.`
pub is_segment-not_dot : (name : Bytes) → is_segment name ≡ true → text_eq name (b'.' ∷ []) ≡ false
unfolding is_segment
is_segment-not_dot name h = ground arith

module _ (system : System) where
  pub perform_call-Confines :
      (call : Call) → is_confined call ≡ true → Confines (λ u. Unit) (perform_call system call)
  perform_call-Confines call h machine safe =
      lift-Confines (λ u. Unit) (system.perform (call ∷ machine.calls)) (Holds-any _)
        (logged call machine) (logged-IsConfined call machine h safe)

  pub read_file_type-Confines :
      (dir : Dir) (name : Bytes)
      → is_below dir name ≡ true
      → Confines (λ u. Unit) (read_file_type system dir name)
  unfolding is_confined
  read_file_type-Confines dir name h machine safe =
      lift-Confines (λ u. Unit) (system.symlink_metadata (metadata_of dir name ∷ machine.calls))
        (Holds-any _) (logged (metadata_of dir name) machine)
        (logged-IsConfined (metadata_of dir name) machine h safe)

  pub open_regular-Confines :
      (dir : Dir) (name : Bytes)
      → is_below dir name ≡ true
      → Confines (λ u. Unit) (open_regular system dir name)
  unfolding is_confined
  open_regular-Confines dir name h machine safe =
      lift-Confines (λ u. Unit) (system.open_regular_file_at (open_file dir name ∷ machine.calls))
        (Holds-any _) (logged (open_file dir name) machine)
        (logged-IsConfined (open_file dir name) machine h safe)

  pub open_component-Confines :
      (dir : Dir) (name : Bytes)
      → all is_segment dir ≡ true
      → is_segment name ≡ true
      → Confines (λ opened. opened ≡ dir ++ name ∷ []) (open_component system dir name)
  unfolding is_confined
  open_component-Confines dir name h one machine safe =
      let call = open_directory dir name in
      let r = system.open_directory_component (call ∷ machine.calls) in
      let confined : is_confined call ≡ true = ground arith in
      rw (open_component, is_segment-not_dot name one)
        (lift-Confines (λ opened. opened ≡ dir ++ name ∷ []) (map_ok (λ u. dir ++ name ∷ []) r)
          (map_ok-Holds (dir ++ name ∷ []) r) (logged call machine)
          (logged-IsConfined call machine confined safe))

  pub open_root-Confines : Confines (λ opened. opened ≡ []) (open_component system [] (b'.' ∷ []))
  unfolding is_confined
  open_root-Confines machine safe =
      let call = open_directory [] (b'.' ∷ []) in
      let r = system.open_directory_component (call ∷ machine.calls) in
      lift-Confines (λ opened. opened ≡ []) (map_ok (λ u. []) r) (map_ok-Holds [] r)
        (logged call machine) (logged-IsConfined call machine refl safe)
