-- ===== src/Packages/Tests.antt =====
-- The theorems of packages at the package `git`.
use omne_runtime.Base.{map, text_eq, ◌≢◌, ◌↔◌, ◌≡◌, codes, List, [], ◌∷◌, refl, some, ok}
use omne_runtime.Packages.{
  starts_with, is_relative_reference, is_package_name_path_separator,
  contains_package_name_path_separator, to_ascii_lowercase, is_control, is_whitespace, trim,
  SystemPackageManager, parse_manager, windows, default_system_package_managers_for_os, pacman,
  default_system_package_install_recipes, brew, install_recipe,
  default_system_package_install_recipes_for_os, SystemPackageInstallRecipe,
  try_default_system_package_install_recipes_for_os, parse_os, new_package_name, SystemPackageName,
  OperatingSystem,
}
use omne_runtime.Packages.Names.{new_package_name_iff, IsPackageName}
use omne_runtime.Packages.Recipes.{try_default_recipes_lem, install_recipe-IsGuarded, IsGuarded}
use omne_runtime.Text.{
  strip_prefix, starts_with, is_ascii_upper, to_ascii_lower, to_ascii_lowercase, is_control,
  is_whitespace, trim_end, trim_start, trim,
}

abbrev git : SystemPackageName
git = record { name = codes "git" }

new_package_name_iff_example :
    (new_package_name (codes "git") ≡ ok git)
    ↔ (IsPackageName (codes "git") × (codes "git" ≡ codes "git"))
new_package_name_iff_example = new_package_name_iff (codes "git") git

install_recipe-IsGuarded_example :
    IsGuarded git (install_recipe pacman git)
    × (parse_manager (codes (install_recipe pacman git).program) ≡ some pacman)
install_recipe-IsGuarded_example = install_recipe-IsGuarded pacman git

abbrev brew_recipes : List SystemPackageInstallRecipe
brew_recipes = install_recipe brew git ∷ []

macos_recipes :
    try_default_system_package_install_recipes_for_os (codes "macos") (codes "git")
    ≡ ok brew_recipes
unfolding try_default_system_package_install_recipes_for_os
    default_system_package_install_recipes_for_os default_system_package_install_recipes
    default_system_package_managers_for_os parse_os new_package_name codes text_eq trim trim_start
    trim_end is_whitespace is_control to_ascii_lowercase to_ascii_lower is_ascii_upper
    contains_package_name_path_separator is_package_name_path_separator is_relative_reference
    starts_with strip_prefix
macos_recipes = refl

try_default_recipes_example :
    (parsed : OperatingSystem) × (parse_os (codes "macos") ≡ ok parsed)
    × (parsed ≢ windows)
    × IsPackageName (codes "git")
    × (managers : List SystemPackageManager) × (default_system_package_managers_for_os parsed
        ≡ ok managers)
    × (brew_recipes ≡ map (λ manager. install_recipe manager git) managers)
try_default_recipes_example =
    try_default_recipes_lem (codes "macos") (codes "git") brew_recipes macos_recipes
