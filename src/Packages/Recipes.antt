-- ===== src/Packages/Recipes.antt =====
-- The install commands: how they end, and for which systems they exist.
use omne_runtime.Base.{
  inl, arith, inr, Result-cases, map, ◌≢◌, ok, some, List, ◌≡◌, text_eq, Text, codes, [], ◌∷◌, refl,
}
use omne_runtime.Packages.{
  new_package_name, macos, linux, brew, zypper, os_as_str, pacman, windows, apk, yum,
  to_ascii_lowercase, is_whitespace, dnf, OperatingSystem, apt_get, trim,
  default_system_package_managers_for_os, SystemPackageManager, parse_manager,
  default_system_package_install_recipes, new_recipe, default_system_package_install_recipes_for_os,
  SystemPackageInstallRecipe, try_default_system_package_install_recipes_for_os, parse_os,
  install_recipe, SystemPackageName,
}
use omne_runtime.Packages.Names.{new_package_name_iff, IsPackageName}
use omne_runtime.Text.{
  is_ascii_upper, to_ascii_lower, to_ascii_lowercase, is_whitespace, trim_end, trim_start, trim,
}

-- A recipe hands the package's name to the package manager as the one argument after `--`.
abbrev pub IsGuarded : SystemPackageName → SystemPackageInstallRecipe → Type 0
IsGuarded name recipe = (leading : Text) × (recipe.args ≡ leading ∷ codes "--" ∷ name.name ∷ [])

-- Every install recipe has one leading argument, then `--`, then the package name, and its program
-- is the name from which the package manager is parsed.
pub install_recipe-IsGuarded :
    (manager : SystemPackageManager) (name : SystemPackageName)
    → IsGuarded name (install_recipe manager name)
      × (parse_manager (codes (install_recipe manager name).program) ≡ some manager)
unfolding install_recipe new_recipe parse_manager codes text_eq
install_recipe-IsGuarded apt_get name = ((codes "install", refl), refl)
install_recipe-IsGuarded dnf name = ((codes "install", refl), refl)
install_recipe-IsGuarded yum name = ((codes "install", refl), refl)
install_recipe-IsGuarded apk name = ((codes "add", refl), refl)
install_recipe-IsGuarded pacman name = ((codes "-S", refl), refl)
install_recipe-IsGuarded zypper name = ((codes "install", refl), refl)
install_recipe-IsGuarded brew name = ((codes "install", refl), refl)

-- An operating system is parsed back from its name.
pub parse_os-os_as_str : (os : OperatingSystem) → parse_os (codes (os_as_str os)) ≡ ok os
unfolding parse_os codes text_eq trim trim_start trim_end is_whitespace to_ascii_lowercase
    to_ascii_lower is_ascii_upper
parse_os-os_as_str linux = refl
parse_os-os_as_str macos = refl
parse_os-os_as_str windows = refl

default_managers-not_windows :
    (os : OperatingSystem) (managers : List SystemPackageManager)
    → default_system_package_managers_for_os os ≡ ok managers
    → os ≢ windows
unfolding default_system_package_managers_for_os
default_managers-not_windows linux managers h = λ bad. cc
default_managers-not_windows macos managers h = λ bad. cc
default_managers-not_windows windows managers h = cc

-- When default recipes are given for a system and a package, the system was parsed and is not
-- Windows, the package name is acceptable, and the recipes are those of the default package
-- managers of the system for exactly this package.
pub try_default_recipes_lem :
    (os name : Text) (recipes : List SystemPackageInstallRecipe)
    → try_default_system_package_install_recipes_for_os os name ≡ ok recipes
    → (parsed : OperatingSystem) × (parse_os os ≡ ok parsed)
      × (parsed ≢ windows)
      × IsPackageName name
      × (managers : List SystemPackageManager) × (default_system_package_managers_for_os parsed
          ≡ ok managers)
      × (recipes ≡ map (λ manager. install_recipe manager (record { name = name })) managers)
unfolding try_default_system_package_install_recipes_for_os
    default_system_package_install_recipes_for_os default_system_package_install_recipes
try_default_recipes_lem os name recipes h = elim (Result-cases (new_package_name name)) [
  | inr (e, q) ↦ ground arith
  | inl (accepted, q) ↦
      let (valid, same) = (new_package_name_iff name accepted).0 q in
      elim (Result-cases (parse_os os)) [
        | inr (e, p) ↦ ground arith
        | inl (parsed, p) ↦ elim (Result-cases (default_system_package_managers_for_os parsed)) [
          | inr (e, m) ↦ ground arith
          | inl (managers, m) ↦ (
            parsed,
            p,
            default_managers-not_windows parsed managers m,
            valid,
            managers,
            m,
            ground (arith, same),
          )
        ]
      ]
]
