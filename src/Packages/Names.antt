-- ===== src/Packages/Names.antt =====
-- Which package names are accepted.
use omne_runtime.Base.{
  text_eq_iff, ||-eq_false, arith, ◌↔◌, ok, all, ◌≡◌, any, Text, [], ◌∷◌, refl, true, false,
}
use omne_runtime.Packages.{
  trim, starts_with, is_relative_reference, contains_package_name_path_separator, is_control,
  is_whitespace, is_empty, SystemPackageName, new_package_name,
}
use omne_runtime.Text.{trim, starts_with, is_control, is_whitespace, is_empty}
use omne_runtime.Text.Laws.{trim-all, is_printable}

-- A name that is accepted is kept as it is, has no whitespace, control character or `/`, is no
-- relative reference, and cannot be read as an option.
pub record IsPackageName (raw : Text) : Type 0 where
  pub nonempty : is_empty raw ≡ false
  pub no_whitespace : any is_whitespace raw ≡ false
  pub no_control : any is_control raw ≡ false
  pub no_separator : contains_package_name_path_separator raw ≡ false
  pub no_reference : is_relative_reference raw ≡ false
  pub no_option : starts_with (b'-' ∷ []) raw ≡ false

all_of_none : (t : Text) → any is_whitespace t ≡ false → all is_printable t ≡ true
all_of_none [] h = refl
all_of_none (c ∷ t) h =
    let (plain, rest) = ||-eq_false (is_whitespace c) (any is_whitespace t) h in
    rw (plain, all_of_none t rest) refl

-- A package name is accepted, and kept as it is, exactly when it is not empty, has no whitespace,
-- control character or slash, is neither `.` nor `..`, and does not start with a dash.
pub new_package_name_iff :
    (raw : Text) (accepted : SystemPackageName)
    → (new_package_name raw ≡ ok accepted) ↔ (IsPackageName raw × (accepted.name ≡ raw))
unfolding new_package_name
new_package_name_iff raw accepted = (
  λ h. (
    record {
      nonempty = ground arith;
      no_whitespace = ground arith;
      no_control = ground arith;
      no_separator = ground arith;
      no_reference = ground arith;
      no_option = ground arith;
    },
    ground arith,
  ),
  λ (valid, same).
      let trimmed = trim-all raw (all_of_none raw valid.no_whitespace) in
      let exact = (text_eq_iff (trim raw) raw) in ground (arith, trimmed, exact),
)
