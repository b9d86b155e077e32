-- ===== src/Packages.antt =====
-- crates/omne-system-package-primitives/src/lib.rs, as it is built on Unix: package names, the
-- package managers and the install commands made of them.
pub mod Names
pub mod Recipes
mod Tests
use omne_runtime.Base.{
  none, some, ◌||◌, not, map, if◌then◌else◌, err, ◌==◌, ◌++◌, text_eq, ok, map_err, ensure, any,
  Option, ℕ, codes, Text, String, Result, List, Bool, [], ◌∷◌, ◌>>=◌, ◌>>◌, true, false,
}
use omne_runtime.Text.{starts_with, is_control, is_whitespace, is_empty, to_ascii_lowercase, trim}

-- `SystemPackageName`
pub record SystemPackageName : Type 0 where
  pub name : Text

pub data SystemPackageNameError : Type 0 where
  empty_name : SystemPackageNameError
  surrounding_whitespace : SystemPackageNameError
  contains_whitespace : SystemPackageNameError
  contains_control_character : SystemPackageNameError
  contains_path_separator : SystemPackageNameError
  relative_path_reference : SystemPackageNameError
  looks_like_option : SystemPackageNameError

unfoldable pub is_package_name_path_separator : ℕ → Bool
is_package_name_path_separator ch = ch == b'/'

unfoldable pub contains_package_name_path_separator : Text → Bool
contains_package_name_path_separator raw = any is_package_name_path_separator raw

unfoldable pub is_relative_reference : Text → Bool
is_relative_reference raw = text_eq raw (codes ".") || text_eq raw (codes "..")

-- `SystemPackageName::new`
unfoldable pub new_package_name : Text → Result SystemPackageNameError SystemPackageName
new_package_name raw = do
  ensure (not (is_empty raw)) empty_name
  ensure (text_eq (trim raw) raw) surrounding_whitespace
  ensure (not (any is_whitespace raw)) contains_whitespace
  ensure (not (any is_control raw)) contains_control_character
  ensure (not (contains_package_name_path_separator raw)) contains_path_separator
  ensure (not (is_relative_reference raw)) relative_path_reference
  ensure (not (starts_with (b'-' ∷ []) raw)) looks_like_option
  ok (record { name = raw })

pub data OperatingSystem : Type 0 where
  linux : OperatingSystem
  macos : OperatingSystem
  windows : OperatingSystem

pub data OperatingSystemError : Type 0 where
  empty_os : OperatingSystemError
  unsupported : Text → OperatingSystemError

-- `OperatingSystem::as_str`
abbrev pub os_as_str : OperatingSystem → String
os_as_str linux = "linux"
os_as_str macos = "macos"
os_as_str windows = "windows"

-- `OperatingSystem::parse`
unfoldable pub parse_os : Text → Result OperatingSystemError OperatingSystem
parse_os raw =
    let trimmed = trim raw in
    let lowered = to_ascii_lowercase trimmed in
    if is_empty trimmed
    then err empty_os
    else if text_eq lowered (codes "linux")
    then ok linux
    else if text_eq lowered (codes "macos")
    then ok macos
    else if text_eq lowered (codes "windows")
    then ok windows
    else err (unsupported lowered)

pub data DefaultSystemPackageRecipeSelectionError : Type 0 where
  invalid_operating_system : OperatingSystemError → DefaultSystemPackageRecipeSelectionError
  unsupported_operating_system : OperatingSystem → DefaultSystemPackageRecipeSelectionError

pub data DefaultSystemPackageRecipeError : Type 0 where
  recipe_invalid_operating_system : OperatingSystemError → DefaultSystemPackageRecipeError
  recipe_unsupported_operating_system : OperatingSystem → DefaultSystemPackageRecipeError
  recipe_invalid_package_name : SystemPackageNameError → DefaultSystemPackageRecipeError

-- `DefaultSystemPackageRecipeError::from`
abbrev pub recipe_error_from :
    DefaultSystemPackageRecipeSelectionError → DefaultSystemPackageRecipeError
recipe_error_from (invalid_operating_system e) = recipe_invalid_operating_system e
recipe_error_from (unsupported_operating_system os) = recipe_unsupported_operating_system os

pub record SystemPackageInstallRecipe : Type 0 where
  pub program : String
  pub args : List Text

-- `SystemPackageInstallRecipe::new`
unfoldable pub new_recipe : String → List Text → SystemPackageName → SystemPackageInstallRecipe
new_recipe program leading_args requested = record {
  program = program;
  args = leading_args ++ codes "--" ∷ requested.name ∷ [];
}

pub data SystemPackageManager : Type 0 where
  apt_get : SystemPackageManager
  dnf : SystemPackageManager
  yum : SystemPackageManager
  apk : SystemPackageManager
  pacman : SystemPackageManager
  zypper : SystemPackageManager
  brew : SystemPackageManager

-- `SystemPackageManager::parse`
unfoldable pub parse_manager : Text → Option SystemPackageManager
parse_manager raw =
    if text_eq raw (codes "apt-get")
    then some apt_get
    else if text_eq raw (codes "dnf")
    then some dnf
    else if text_eq raw (codes "yum")
    then some yum
    else if text_eq raw (codes "apk")
    then some apk
    else if text_eq raw (codes "pacman")
    then some pacman
    else if text_eq raw (codes "zypper")
    then some zypper
    else if text_eq raw (codes "brew")
    then some brew
    else none

unfoldable pub install_recipe :
    SystemPackageManager → SystemPackageName → SystemPackageInstallRecipe
install_recipe apt_get requested = new_recipe "apt-get" (codes "install" ∷ []) requested
install_recipe dnf requested = new_recipe "dnf" (codes "install" ∷ []) requested
install_recipe yum requested = new_recipe "yum" (codes "install" ∷ []) requested
install_recipe apk requested = new_recipe "apk" (codes "add" ∷ []) requested
install_recipe pacman requested = new_recipe "pacman" (codes "-S" ∷ []) requested
install_recipe zypper requested = new_recipe "zypper" (codes "install" ∷ []) requested
install_recipe brew requested = new_recipe "brew" (codes "install" ∷ []) requested

abbrev pub requires_privileged_install : SystemPackageManager → Bool
requires_privileged_install brew = false
requires_privileged_install _ = true

unfoldable pub try_install_recipe :
    SystemPackageManager → Text → Result SystemPackageNameError SystemPackageInstallRecipe
try_install_recipe manager requested = do
  accepted ← new_package_name requested
  ok (install_recipe manager accepted)

-- `LINUX_DEFAULT_SYSTEM_PACKAGE_MANAGERS`
abbrev pub linux_default_managers : List SystemPackageManager
linux_default_managers = apt_get ∷ dnf ∷ yum ∷ apk ∷ pacman ∷ zypper ∷ []

unfoldable pub default_system_package_managers_for_os :
    OperatingSystem → Result DefaultSystemPackageRecipeSelectionError (List SystemPackageManager)
default_system_package_managers_for_os linux = ok linux_default_managers
default_system_package_managers_for_os macos = ok (brew ∷ [])
default_system_package_managers_for_os windows = err (unsupported_operating_system windows)

unfoldable pub default_system_package_install_recipes :
    OperatingSystem
    → SystemPackageName
    → Result DefaultSystemPackageRecipeSelectionError (List SystemPackageInstallRecipe)
default_system_package_install_recipes os requested = do
  managers ← default_system_package_managers_for_os os
  ok (map (λ manager. install_recipe manager requested) managers)

unfoldable pub default_system_package_install_recipes_for_os :
    Text
    → SystemPackageName
    → Result DefaultSystemPackageRecipeSelectionError (List SystemPackageInstallRecipe)
default_system_package_install_recipes_for_os os requested = do
  os' ← map_err (parse_os os) invalid_operating_system
  default_system_package_install_recipes os' requested

unfoldable pub try_default_system_package_install_recipes_for_os :
    Text → Text → Result DefaultSystemPackageRecipeError (List SystemPackageInstallRecipe)
try_default_system_package_install_recipes_for_os os requested = do
  accepted ← map_err (new_package_name requested) recipe_invalid_package_name
  map_err (default_system_package_install_recipes_for_os os accepted) recipe_error_from
