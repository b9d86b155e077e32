-- ===== src/Install/Confined/Leaves.antt =====
-- archive_tree.rs of omne-artifact-install-primitives: staged leaves have names of their own in the directory
-- of their entry.
use omne_runtime.Base.{
  ◌/◌, ◌%◌, inr, ltb→lt, inl, Bool-cases, codes, refl, arith, all-append, String, ◌≡◌, ℕ, zero, suc,
  ◌<◌, true, [], ◌∷◌, ◌++◌, Bytes, Result, ok, err, all, ltb,
}
use omne_runtime.Base.Actions.{Outcome, ◌>>=◌, lift, attempt}
use omne_runtime.FsPath.Segments.{is_segment, not_slash}
use omne_runtime.Install.{
  remove_file, rename_leaf, read_file_type, perform_call, Machine, ArtifactInstallError, Dir, Call,
  IoError, System,
}
use omne_runtime.Install.Confined.{
  logged-IsConfined, Holds-any, lift-Confines, read_file_type-Confines, IsConfinedWith, IsConfined,
  perform_call-Confines, match-Confines, map_error-Confines, if-Confines, is_below, >>=-Confines,
  Confines, is_confined,
}
use omne_runtime.Install.Directories.{Install}
use omne_runtime.Install.Leaves.{
  is_already_exists, dropped, replaceable, staged_or, rename_archive_leaf, pending_leaf,
  next_archive_staged_leaf_name, ensure_replaceable_archive_output_leaf, create_staged_leaf,
  staged_leaf_name, lower_hex_on_fuel, lower_hex_digit, lower_hex,
}

-- Names of staged leaves.

hex_digit-not_slash : (n : ℕ) → n < 16 → not_slash (lower_hex_digit n) ≡ true
hex_digit-not_slash n h = ground arith

all-append-true :
    (xs ys : Bytes)
    → all not_slash xs ≡ true
    → all not_slash ys ≡ true
    → all not_slash (xs ++ ys) ≡ true
all-append-true xs ys h k = rw (all-append not_slash xs ys, h) k

lower_hex_on_fuel-not_slash : (fuel n : ℕ) → all not_slash (lower_hex_on_fuel fuel n) ≡ true
unfolding lower_hex_on_fuel
lower_hex_on_fuel-not_slash zero n = refl
lower_hex_on_fuel-not_slash (suc fuel) n = elim (Bool-cases (ltb n 16)) [
  | inl small ↦ rw (small, hex_digit-not_slash n (ltb→lt n 16 small)) refl
  | inr large ↦
      let last : not_slash (lower_hex_digit (n % 16)) ≡ true =
        hex_digit-not_slash (n % 16) (omega arith) in
      rw large (
        all-append-true (lower_hex_on_fuel fuel (n / 16)) (lower_hex_digit (n % 16) ∷ [])
          (lower_hex_on_fuel-not_slash fuel (n / 16)) (rw last refl))
]

lower_hex-not_slash : (n : ℕ) → all not_slash (lower_hex n) ≡ true
unfolding lower_hex
lower_hex-not_slash n = lower_hex_on_fuel-not_slash (suc n) n

staged_leaf_name-is_segment :
    (purpose : String) (pid timestamp sequence : ℕ)
    → all not_slash (codes purpose) ≡ true
    → is_segment (staged_leaf_name purpose pid timestamp sequence) ≡ true
unfolding staged_leaf_name is_segment
staged_leaf_name-is_segment purpose pid timestamp sequence h =
    let dash : Bytes = b'-' ∷ [] in
    let one = all-append-true (codes purpose) dash h refl in
    let two =
      all-append-true (codes purpose ++ dash) (lower_hex pid) one (lower_hex-not_slash pid) in
    let three = all-append-true (codes purpose ++ dash ++ lower_hex pid) dash two refl in
    let four =
      all-append-true (codes purpose ++ dash ++ lower_hex pid ++ dash) (lower_hex timestamp) three
        (lower_hex-not_slash timestamp) in
    let five =
      all-append-true (codes purpose ++ dash ++ lower_hex pid ++ dash ++ lower_hex timestamp) dash
        four refl in
    let six =
      all-append-true
        (codes purpose ++ dash ++ lower_hex pid ++ dash ++ lower_hex timestamp ++ dash)
        (lower_hex sequence) five (lower_hex-not_slash sequence) in
    all-append-true
      (codes purpose
        ++ dash
        ++ lower_hex pid
        ++ dash
        ++ lower_hex timestamp
        ++ dash
        ++ lower_hex sequence)
      (codes ".tmp") six refl

module _ (system : System) where
  next_archive_staged_leaf_name-Confines :
      (purpose : String)
      → all not_slash (codes purpose) ≡ true
      → Confines (λ leaf. is_segment leaf ≡ true) (next_archive_staged_leaf_name system purpose)
  unfolding next_archive_staged_leaf_name
  next_archive_staged_leaf_name-Confines purpose h machine safe =
      let named =
        staged_leaf_name-is_segment purpose system.process_id (system.now machine.calls)
          machine.staged_leaf_counter h in
      (safe, named)

  staged_or-Confines :
      (entry_path leaf : Bytes) (answer : Result IoError (Unit {0})) (again : Install Bytes)
      → is_segment leaf ≡ true
      → Confines (λ l. is_segment l ≡ true) again
      → Confines (λ l. is_segment l ≡ true) (staged_or system entry_path leaf answer again)
  staged_or-Confines entry_path leaf (ok u) again named h = λ machine safe. (safe, named)
  staged_or-Confines entry_path leaf (err e) again named h =
      if-Confines (λ l. is_segment l ≡ true) (is_already_exists e.kind) again _ (λ x. h)
        (λ x machine safe. safe)

  pub create_staged_leaf-Confines :
      (attempts : ℕ) (entry_path : Bytes) (purpose : String) (make : Bytes → Call)
      → all not_slash (codes purpose) ≡ true
      → ((leaf : Bytes) → is_segment leaf ≡ true → is_confined (make leaf) ≡ true)
      → Confines
          (λ leaf. is_segment leaf ≡ true)
          (create_staged_leaf system attempts entry_path purpose make)
  unfolding create_staged_leaf
  create_staged_leaf-Confines zero entry_path purpose make h confined = λ machine safe. safe
  create_staged_leaf-Confines (suc attempts) entry_path purpose make h confined =
      let Leaf = λ (leaf : Bytes). is_segment leaf ≡ true in
      let again = create_staged_leaf system attempts entry_path purpose make in
      >>=-Confines Leaf Leaf (next_archive_staged_leaf_name system purpose)
        (λ leaf. attempt (perform_call system (make leaf)) >>= λ answer.
          staged_or system entry_path leaf answer again)
        (next_archive_staged_leaf_name-Confines purpose h)
        (λ leaf named.
          match-Confines (λ u. Unit) Leaf (perform_call system (make leaf))
            (λ answer. staged_or system entry_path leaf answer again)
            (perform_call-Confines system (make leaf) (confined leaf named))
            (λ answer u.
              staged_or-Confines entry_path leaf answer again named
                (create_staged_leaf-Confines attempts entry_path purpose make h confined)))

  dropped-Confined :
      (dir : Dir) (leaf : Bytes) (x : Result ArtifactInstallError (Unit {0}) × Machine)
      → is_below dir leaf ≡ true
      → Outcome IsConfined (IsConfinedWith (λ u. Unit)) x
      → Outcome IsConfined (IsConfinedWith (λ u. Unit)) (dropped system dir leaf x)
  unfolding is_confined
  dropped-Confined dir leaf (ok u, machine) below h = h
  dropped-Confined dir leaf (err e, machine) below h =
      logged-IsConfined (remove_file dir leaf) machine below h

  pub pending_leaf-Confines :
      (dir : Dir) (leaf : Bytes) (rest : Install (Unit {0}))
      → is_below dir leaf ≡ true
      → Confines (λ u. Unit) rest
      → Confines (λ u. Unit) (pending_leaf system dir leaf rest)
  unfolding pending_leaf
  pending_leaf-Confines dir leaf rest below h machine safe =
      dropped-Confined dir leaf (rest machine) below (h machine safe)

  pub rename_archive_leaf-Confines :
      (entry_path : Bytes) (dir : Dir) (from to : Bytes)
      → is_below dir from ≡ true
      → is_below dir to ≡ true
      → Confines (λ u. Unit) (rename_archive_leaf system entry_path dir from to)
  unfolding rename_archive_leaf is_confined
  rename_archive_leaf-Confines entry_path dir from to h k =
      map_error-Confines (λ u. Unit) (perform_call system (rename_leaf dir from to)) _
        (perform_call-Confines system (rename_leaf dir from to) (ground arith))

  pub ensure_replaceable_archive_output_leaf-Confines :
      (entry_path : Bytes) (dir : Dir) (name : Bytes)
      → is_below dir name ≡ true
      → Confines (λ u. Unit) (ensure_replaceable_archive_output_leaf system entry_path dir name)
  unfolding ensure_replaceable_archive_output_leaf
  ensure_replaceable_archive_output_leaf-Confines entry_path dir name h =
      match-Confines (λ u. Unit) (λ u. Unit) (read_file_type system dir name)
        (λ answer. lift (replaceable system entry_path name answer))
        (read_file_type-Confines system dir name h)
        (λ answer u.
          lift-Confines (λ v. Unit) (replaceable system entry_path name answer) (Holds-any _))
