-- ===== src/HostInfo.antt =====
-- crates/omne-host-info-primitives/src/lib.rs, as it is built on Linux: the host platform, target
-- triples, and the home directory. The environment variables and `/proc/self/maps` are parameters.
pub mod Triples
mod Tests
use omne_runtime.Base.{
  and_then, true, false, none, some, [], ◌∷◌, ◌||◌, not, text_eq, codes, ok, map_ok, if◌then◌else◌,
  err, Bytes, Text, String, Result, Option, List, Bool,
}
use mathlib.Core.Option.{none}
use omne_runtime.FsPath.{is_absolute}
use omne_runtime.Text.{is_empty, contains_text, trim, to_ascii_lowercase}

pub data HostOperatingSystem : Type 0 where
  linux : HostOperatingSystem
  macos : HostOperatingSystem
  windows : HostOperatingSystem

-- `HostOperatingSystem::as_str`
abbrev pub host_os_as_str : HostOperatingSystem → String
host_os_as_str linux = "linux"
host_os_as_str macos = "macos"
host_os_as_str windows = "windows"

pub data HostArchitecture : Type 0 where
  x86_64 : HostArchitecture
  aarch64 : HostArchitecture

pub data HostLinuxLibc : Type 0 where
  gnu : HostLinuxLibc
  musl : HostLinuxLibc

pub data HostPlatformTargetTripleError : Type 0 where
  linux_libc_unknown : HostPlatformTargetTripleError
  inconsistent_platform_metadata : HostPlatformTargetTripleError

pub data LinuxLibcDetection : Type 0 where
  detected : HostLinuxLibc → LinuxLibcDetection
  unavailable : LinuxLibcDetection
  ambiguous : LinuxLibcDetection

pub record HostPlatform : Type 0 where
  pub os : HostOperatingSystem
  pub arch : HostArchitecture
  pub linux_libc : Option HostLinuxLibc

abbrev linux_triple : HostArchitecture → HostLinuxLibc → String
linux_triple aarch64 gnu = "aarch64-unknown-linux-gnu"
linux_triple aarch64 musl = "aarch64-unknown-linux-musl"
linux_triple x86_64 gnu = "x86_64-unknown-linux-gnu"
linux_triple x86_64 musl = "x86_64-unknown-linux-musl"

abbrev other_triple : String → Option HostLinuxLibc → Result HostPlatformTargetTripleError String
other_triple triple none = ok triple
other_triple triple (some libc) = err inconsistent_platform_metadata

abbrev pub triple_of :
    HostOperatingSystem
    → HostArchitecture
    → Option HostLinuxLibc
    → Result HostPlatformTargetTripleError String
triple_of linux arch none = err linux_libc_unknown
triple_of linux arch (some libc) = ok (linux_triple arch libc)
triple_of macos aarch64 libc = other_triple "aarch64-apple-darwin" libc
triple_of macos x86_64 libc = other_triple "x86_64-apple-darwin" libc
triple_of windows aarch64 libc = other_triple "aarch64-pc-windows-msvc" libc
triple_of windows x86_64 libc = other_triple "x86_64-pc-windows-msvc" libc

unfoldable pub try_target_triple : HostPlatform → Result HostPlatformTargetTripleError String
try_target_triple platform = triple_of platform.os platform.arch platform.linux_libc

unfoldable pub target_triple : HostPlatform → Option String
target_triple platform = elim (try_target_triple platform) [ ok t ↦ some t | err e ↦ none ]

pub data SupportedTargetTriple : Type 0 where
  aarch64_apple_darwin : SupportedTargetTriple
  x86_64_apple_darwin : SupportedTargetTriple
  aarch64_unknown_linux_gnu : SupportedTargetTriple
  aarch64_unknown_linux_musl : SupportedTargetTriple
  x86_64_unknown_linux_gnu : SupportedTargetTriple
  x86_64_unknown_linux_musl : SupportedTargetTriple
  aarch64_pc_windows_msvc : SupportedTargetTriple
  x86_64_pc_windows_msvc : SupportedTargetTriple

-- `SupportedTargetTriple::as_str`
abbrev pub triple_as_str : SupportedTargetTriple → String
triple_as_str aarch64_apple_darwin = "aarch64-apple-darwin"
triple_as_str x86_64_apple_darwin = "x86_64-apple-darwin"
triple_as_str aarch64_unknown_linux_gnu = "aarch64-unknown-linux-gnu"
triple_as_str aarch64_unknown_linux_musl = "aarch64-unknown-linux-musl"
triple_as_str x86_64_unknown_linux_gnu = "x86_64-unknown-linux-gnu"
triple_as_str x86_64_unknown_linux_musl = "x86_64-unknown-linux-musl"
triple_as_str aarch64_pc_windows_msvc = "aarch64-pc-windows-msvc"
triple_as_str x86_64_pc_windows_msvc = "x86_64-pc-windows-msvc"

abbrev pub executable_suffix : SupportedTargetTriple → String
executable_suffix aarch64_pc_windows_msvc = ".exe"
executable_suffix x86_64_pc_windows_msvc = ".exe"
executable_suffix _ = ""

pub data TargetTripleError : Type 0 where
  empty_triple : TargetTripleError
  unsupported_triple : Text → TargetTripleError

-- The string literals of the `match`, in its order.
abbrev pub supported_triples : List SupportedTargetTriple
supported_triples =
    aarch64_apple_darwin ∷ x86_64_apple_darwin ∷ aarch64_unknown_linux_gnu
    ∷ aarch64_unknown_linux_musl ∷ x86_64_unknown_linux_gnu ∷ x86_64_unknown_linux_musl
    ∷ aarch64_pc_windows_msvc ∷ x86_64_pc_windows_msvc ∷ []

unfoldable pub match_triple :
    Text → List SupportedTargetTriple → Result TargetTripleError SupportedTargetTriple
match_triple trimmed [] = err (unsupported_triple trimmed)
match_triple trimmed (triple ∷ triples) =
    let rest = match_triple trimmed triples in
    if text_eq trimmed (codes (triple_as_str triple)) then ok triple else rest

unfoldable pub parse_supported_target_triple : Text → Result TargetTripleError SupportedTargetTriple
parse_supported_target_triple raw =
    let trimmed = trim raw in
    if is_empty trimmed then err empty_triple else match_triple trimmed supported_triples

unfoldable pub try_resolve_target_triple : Option Text → Text → Result TargetTripleError Text
try_resolve_target_triple override_target host_target_triple =
    let host =
      map_ok (λ t. codes (triple_as_str t)) (parse_supported_target_triple host_target_triple) in
    elim override_target [
      | none ↦ host
      | some raw ↦
          let trimmed = trim raw in
          if not (is_empty trimmed)
          then map_ok (λ t. codes (triple_as_str t)) (parse_supported_target_triple trimmed)
          else host
    ]

unfoldable pub resolve_target_triple : Option Text → Text → Text
resolve_target_triple override_target host_target_triple =
    elim (try_resolve_target_triple override_target host_target_triple) [
      | ok target ↦ target
      | err e ↦ elim (parse_supported_target_triple host_target_triple) [
        | ok target ↦ codes (triple_as_str target)
        | err e' ↦ []
      ]
    ]

unfoldable pub try_executable_suffix_for_target : Text → Result TargetTripleError String
try_executable_suffix_for_target triple =
    map_ok executable_suffix (parse_supported_target_triple triple)

unfoldable pub executable_suffix_for_target : Text → String
executable_suffix_for_target triple = elim (try_executable_suffix_for_target triple) [
  | ok suffix ↦ suffix
  | err e ↦ ""
]

-- `absolute_env_path`, of what the environment answers for the key
unfoldable pub absolute_env_path : (String → Option Bytes) → String → Option Bytes
absolute_env_path env_lookup key = elim (env_lookup key) [
  | none ↦ none
  | some value ↦ if is_empty value then none else if is_absolute value then some value else none
]

-- `resolve_home_dir_with`, whose `HOME_ENV_KEYS` is `HOME` alone outside Windows
unfoldable pub resolve_home_dir_with : (String → Option Bytes) → Option Bytes
resolve_home_dir_with env_lookup = absolute_env_path env_lookup "HOME"

abbrev pub parse_host_os : Text → Option HostOperatingSystem
parse_host_os os =
    if text_eq os (codes "linux")
    then some linux
    else if text_eq os (codes "macos")
    then some macos
    else if text_eq os (codes "windows")
    then some windows
    else none

abbrev pub parse_host_arch : Text → Option HostArchitecture
parse_host_arch arch =
    if text_eq arch (codes "x86_64")
    then some x86_64
    else if text_eq arch (codes "aarch64")
    then some aarch64
    else none

abbrev pub platform_libc :
    HostOperatingSystem → Option HostLinuxLibc → Option (Option HostLinuxLibc)
platform_libc linux libc = some libc
platform_libc os none = some none
platform_libc os (some libc) = none

unfoldable pub host_platform_from_parts : Text → Text → Option HostLinuxLibc → Option HostPlatform
host_platform_from_parts os arch linux_libc = and_then (parse_host_os os) λ os'.
    and_then (parse_host_arch arch) λ arch'.
      and_then (platform_libc os' linux_libc)
        λ libc. some (record { os = os'; arch = arch'; linux_libc = libc })

abbrev pub classify_linux_libc_markers : (musl_marker gnu_marker : Bool) → LinuxLibcDetection
classify_linux_libc_markers true false = detected musl
classify_linux_libc_markers false true = detected gnu
classify_linux_libc_markers false false = unavailable
classify_linux_libc_markers true true = ambiguous

-- `LinuxLibcDetection::into_option`
abbrev pub into_option : LinuxLibcDetection → Option HostLinuxLibc
into_option (detected libc) = some libc
into_option _ = none

unfoldable pub detect_host_linux_libc_from_proc_maps : Text → LinuxLibcDetection
detect_host_linux_libc_from_proc_maps proc_maps =
    let normalized = to_ascii_lowercase proc_maps in
    classify_linux_libc_markers
      (contains_text (codes "ld-musl-") normalized || contains_text (codes "libc.musl-") normalized)
      (contains_text (codes "ld-linux-") normalized || contains_text (codes "libc.so.6") normalized)

-- `detect_host_linux_libc_with_proc_maps`, of what reading the file answers
unfoldable pub detect_host_linux_libc : Option Text → Option HostLinuxLibc
detect_host_linux_libc proc_maps = elim proc_maps [
  | none ↦ into_option unavailable
  | some maps ↦ into_option (detect_host_linux_libc_from_proc_maps maps)
]

-- `detect_host_platform`, of `std::env::consts::OS` and `ARCH` and the answer for the maps
unfoldable pub detect_host_platform : Text → Text → Option Text → Option HostPlatform
detect_host_platform os arch proc_maps =
    host_platform_from_parts os arch (detect_host_linux_libc proc_maps)

unfoldable pub detect_host_target_triple : Text → Text → Option Text → Option String
detect_host_target_triple os arch proc_maps =
    and_then (detect_host_platform os arch proc_maps) target_triple
