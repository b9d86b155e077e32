-- ===== src/HostInfo/Tests.antt =====
-- The theorems of target triples at a glibc host.
use omne_runtime.Base.{◌≡◌, text_eq, codes, Text, Option, refl, none, some, ok}
use omne_runtime.HostInfo.{
  contains_text, trim, to_ascii_lowercase, detect_host_linux_libc_from_proc_maps,
  x86_64_apple_darwin, detect_host_linux_libc, triple_as_str, detect_host_platform, aarch64,
  target_triple, macos, try_target_triple, resolve_target_triple, parse_supported_target_triple,
  host_platform_from_parts, detect_host_target_triple, SupportedTargetTriple, HostPlatform,
}
use omne_runtime.HostInfo.Triples.{
  IsChosen, resolve_target_triple_lem, detect_host_target_triple-supported,
}
use omne_runtime.Text.{
  is_whitespace, trim_end, trim_start, strip_prefix, starts_with, contains_text, is_ascii_upper,
  to_ascii_lower, trim, to_ascii_lowercase,
}

abbrev gnu_maps : Option Text
gnu_maps = some (codes "/lib/libc.so.6")

gnu_triple :
    detect_host_target_triple (codes "linux") (codes "x86_64") gnu_maps
    ≡ some "x86_64-unknown-linux-gnu"
unfolding detect_host_target_triple target_triple try_target_triple detect_host_platform
    host_platform_from_parts detect_host_linux_libc detect_host_linux_libc_from_proc_maps codes
    text_eq to_ascii_lowercase to_ascii_lower is_ascii_upper contains_text starts_with strip_prefix
gnu_triple = refl

detect_host_target_triple-supported_example :
    (t : SupportedTargetTriple) × (parse_supported_target_triple (codes "x86_64-unknown-linux-gnu")
      ≡ ok t)
detect_host_target_triple-supported_example =
    detect_host_target_triple-supported (codes "linux") (codes "x86_64") gnu_maps
      "x86_64-unknown-linux-gnu" gnu_triple

mac_text :
    trim (codes (triple_as_str x86_64_apple_darwin)) ≡ codes (triple_as_str x86_64_apple_darwin)
unfolding codes trim trim_start trim_end is_whitespace
mac_text = refl

resolve_target_triple_example :
    (chosen : SupportedTargetTriple) × (resolve_target_triple
        (some (codes " x86_64-unknown-linux-gnu "))
        (codes (triple_as_str x86_64_apple_darwin))
      ≡ codes (triple_as_str chosen))
    × IsChosen (some (codes " x86_64-unknown-linux-gnu ")) x86_64_apple_darwin chosen
resolve_target_triple_example =
    resolve_target_triple_lem (some (codes " x86_64-unknown-linux-gnu "))
      (codes (triple_as_str x86_64_apple_darwin)) x86_64_apple_darwin mac_text

abbrev mac : HostPlatform
mac = record { os = macos; arch = aarch64; linux_libc = none }

mac_parts : host_platform_from_parts (codes "macos") (codes "aarch64") none ≡ some mac
unfolding host_platform_from_parts codes text_eq
mac_parts = refl
