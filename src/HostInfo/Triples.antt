-- ===== src/HostInfo/Triples.antt =====
-- Target triples: parsing, printing, and the triple of a host.
use omne_runtime.Base.{
  if◌then◌else◌, true, Result, Result-cases, ◌⊎◌, ◌∙◌, ap, sym, Option-cases, inr, text_eq→eq, inl,
  arith, Bool-cases, err, ◌≢◌, ok, ◌≡◌, text_eq, String, Option, List, codes, Text, [], ◌∷◌, refl,
  none, some,
}
use omne_runtime.HostInfo.{
  empty_triple, TargetTripleError, is_empty, detect_host_platform, try_resolve_target_triple,
  target_triple, resolve_target_triple, detect_host_target_triple, parse_host_arch, parse_host_os,
  musl, gnu, x86_64, windows, aarch64, macos, linux, triple_of, platform_libc, HostArchitecture,
  HostOperatingSystem, x86_64_pc_windows_msvc, aarch64_pc_windows_msvc, x86_64_unknown_linux_musl,
  x86_64_unknown_linux_gnu, aarch64_unknown_linux_musl, aarch64_unknown_linux_gnu,
  x86_64_apple_darwin, aarch64_apple_darwin, supported_triples, inconsistent_platform_metadata,
  triple_as_str, trim, HostLinuxLibc, SupportedTargetTriple, host_platform_from_parts, HostPlatform,
  try_target_triple, parse_supported_target_triple, match_triple,
}
use omne_runtime.Text.{is_empty, is_whitespace, trim_end, trim_start, trim}
use omne_runtime.Text.Laws.{trim-trim}

-- A supported target triple is parsed back from its text.
pub parse_supported_target_triple-triple_as_str :
    (t : SupportedTargetTriple) → parse_supported_target_triple (codes (triple_as_str t)) ≡ ok t
unfolding parse_supported_target_triple match_triple codes text_eq trim trim_start trim_end
    is_whitespace
parse_supported_target_triple-triple_as_str aarch64_apple_darwin = refl
parse_supported_target_triple-triple_as_str x86_64_apple_darwin = refl
parse_supported_target_triple-triple_as_str aarch64_unknown_linux_gnu = refl
parse_supported_target_triple-triple_as_str aarch64_unknown_linux_musl = refl
parse_supported_target_triple-triple_as_str x86_64_unknown_linux_gnu = refl
parse_supported_target_triple-triple_as_str x86_64_unknown_linux_musl = refl
parse_supported_target_triple-triple_as_str aarch64_pc_windows_msvc = refl
parse_supported_target_triple-triple_as_str x86_64_pc_windows_msvc = refl

match_triple-eq_ok :
    (trimmed : Text) (triples : List SupportedTargetTriple) (t : SupportedTargetTriple)
    → match_triple trimmed triples ≡ ok t
    → trimmed ≡ codes (triple_as_str t)
unfolding match_triple
match_triple-eq_ok trimmed [] t h = cc
match_triple-eq_ok trimmed (first ∷ triples) t h =
    elim (Bool-cases (text_eq trimmed (codes (triple_as_str first)))) [
      | inl same ↦
          let e = text_eq→eq trimmed (codes (triple_as_str first)) same in ground (arith, e)
      | inr other ↦ match_triple-eq_ok trimmed triples t (ground arith)
    ]

-- What is accepted is the text of the triple, up to surrounding whitespace.
pub parse_supported_target_triple-eq_ok :
    (raw : Text) (t : SupportedTargetTriple)
    → parse_supported_target_triple raw ≡ ok t
    → trim raw ≡ codes (triple_as_str t)
unfolding parse_supported_target_triple
parse_supported_target_triple-eq_ok raw t h =
    match_triple-eq_ok (trim raw) supported_triples t (ground arith)

triple_of-supported :
    (os : HostOperatingSystem) (arch : HostArchitecture) (libc : Option HostLinuxLibc)
    (triple : String)
    → triple_of os arch libc ≡ ok triple
    → (t : SupportedTargetTriple) × (triple ≡ triple_as_str t)
triple_of-supported linux arch none triple h = ground arith
triple_of-supported linux aarch64 (some gnu) triple h = (aarch64_unknown_linux_gnu, cc)
triple_of-supported linux aarch64 (some musl) triple h = (aarch64_unknown_linux_musl, cc)
triple_of-supported linux x86_64 (some gnu) triple h = (x86_64_unknown_linux_gnu, cc)
triple_of-supported linux x86_64 (some musl) triple h = (x86_64_unknown_linux_musl, cc)
triple_of-supported macos aarch64 none triple h = (aarch64_apple_darwin, cc)
triple_of-supported macos x86_64 none triple h = (x86_64_apple_darwin, cc)
triple_of-supported windows aarch64 none triple h = (aarch64_pc_windows_msvc, cc)
triple_of-supported windows x86_64 none triple h = (x86_64_pc_windows_msvc, cc)
triple_of-supported macos aarch64 (some libc) triple h = ground arith
triple_of-supported macos x86_64 (some libc) triple h = ground arith
triple_of-supported windows aarch64 (some libc) triple h = ground arith
triple_of-supported windows x86_64 (some libc) triple h = ground arith

-- The triple of a platform is one that is supported.
pub try_target_triple-supported :
    (platform : HostPlatform) (triple : String)
    → try_target_triple platform ≡ ok triple
    → (t : SupportedTargetTriple) × (triple ≡ triple_as_str t)
unfolding try_target_triple
try_target_triple-supported platform triple h =
    triple_of-supported platform.os platform.arch platform.linux_libc triple h

triple_of-consistent :
    (os : HostOperatingSystem) (arch : HostArchitecture) (libc libc' : Option HostLinuxLibc)
    → platform_libc os libc ≡ some libc'
    → triple_of os arch libc' ≢ err inconsistent_platform_metadata
triple_of-consistent linux arch libc none h = λ bad. cc
triple_of-consistent linux arch libc (some l) h = λ bad. cc
triple_of-consistent macos aarch64 none none h = λ bad. cc
triple_of-consistent macos aarch64 none (some l) h = cc
triple_of-consistent macos x86_64 none none h = λ bad. cc
triple_of-consistent macos x86_64 none (some l) h = cc
triple_of-consistent windows aarch64 none none h = λ bad. cc
triple_of-consistent windows aarch64 none (some l) h = cc
triple_of-consistent windows x86_64 none none h = λ bad. cc
triple_of-consistent windows x86_64 none (some l) h = cc
triple_of-consistent macos aarch64 (some libc) libc' h = cc
triple_of-consistent macos x86_64 (some libc) libc' h = cc
triple_of-consistent windows aarch64 (some libc) libc' h = cc
triple_of-consistent windows x86_64 (some libc) libc' h = cc

-- A platform that is made of its parts never has inconsistent metadata when its target triple is
-- asked for.
pub host_platform_from_parts-consistent :
    (os arch : Text) (libc : Option HostLinuxLibc) (platform : HostPlatform)
    → host_platform_from_parts os arch libc ≡ some platform
    → try_target_triple platform ≢ err inconsistent_platform_metadata
unfolding try_target_triple host_platform_from_parts
host_platform_from_parts-consistent os arch libc platform h =
    elim (Option-cases (parse_host_os os)) [
      | inl p ↦ ground arith
      | inr (os', p) ↦ elim (Option-cases (parse_host_arch arch)) [
        | inl q ↦ ground arith
        | inr (arch', q) ↦ elim (Option-cases (platform_libc os' libc)) [
          | inl l ↦ ground arith
          | inr (libc', l) ↦ λ bad. triple_of-consistent os' arch' libc libc' l (
              let made : platform ≡ record { os = os'; arch = arch'; linux_libc = libc' } =
                ground arith in
              sym (ap try_target_triple made) ∙ bad)
        ]
      ]
    ]

-- A triple that is detected for the host is one that the parser of target triples supports.
pub detect_host_target_triple-supported :
    (os arch : Text) (proc_maps : Option Text) (triple : String)
    → detect_host_target_triple os arch proc_maps ≡ some triple
    → (t : SupportedTargetTriple) × (parse_supported_target_triple (codes triple) ≡ ok t)
unfolding detect_host_target_triple target_triple
detect_host_target_triple-supported os arch proc_maps triple h =
    elim (Option-cases (detect_host_platform os arch proc_maps)) [
      | inl p ↦ ground arith
      | inr (platform, p) ↦ elim (Result-cases (try_target_triple platform)) [
        | inr (e, q) ↦ ground arith
        | inl (found, q) ↦
            let same : triple ≡ found = ground arith in
            let (t, printed) = try_target_triple-supported platform found q in
            (t, rw (same, printed) (parse_supported_target_triple-triple_as_str t))
      ]
    ]

-- The triple that an override and the triple of the host choose: the one that the trimmed override
-- spells, and that of the host where there is no override or it spells no supported triple.
abbrev pub IsChosen : Option Text → SupportedTargetTriple → SupportedTargetTriple → Type 0
IsChosen none t chosen = chosen ≡ t
IsChosen (some raw) t chosen =
    (trim raw ≡ codes (triple_as_str chosen))
    ⊎ ((chosen ≡ t) × ((other : SupportedTargetTriple) → trim raw ≢ codes (triple_as_str other)))

-- A text that spells a supported triple is parsed, with and without the whitespace around it.
parse_named :
    (raw : Text) (t : SupportedTargetTriple)
    → trim raw ≡ codes (triple_as_str t)
    → parse_supported_target_triple raw ≡ ok t
unfolding parse_supported_target_triple
parse_named raw t h =
    let own : trim raw ≡ trim (codes (triple_as_str t)) = sym (trim-trim raw) ∙ ap trim h in
    ap parse_trimmed own ∙ parse_supported_target_triple-triple_as_str t
  where
    parse_trimmed : Text → Result TargetTripleError SupportedTargetTriple
    parse_trimmed trimmed =
        if is_empty trimmed then err empty_triple else match_triple trimmed supported_triples

unsupported :
    (raw : Text) (e : TargetTripleError)
    → parse_supported_target_triple (trim raw) ≡ err e
    → (other : SupportedTargetTriple) → trim raw ≢ codes (triple_as_str other)
unsupported raw e q other named = let h = parse_named (trim raw) other (trim-trim raw ∙ named) in cc

blank_unsupported :
    (raw : Text)
    → is_empty (trim raw) ≡ true
    → (other : SupportedTargetTriple) → trim raw ≢ codes (triple_as_str other)
unfolding parse_supported_target_triple
blank_unsupported raw blank = unsupported raw empty_triple (
    let own : is_empty (trim (trim raw)) ≡ true = ap is_empty (trim-trim raw) ∙ blank in
    rw own refl)

-- With a host triple that, trimmed, is the text of a supported triple, the resolution gives the
-- text of a supported triple: that of the trimmed override where this is the text of one, and that
-- of the host where there is no override or where the trimmed override is the text of no supported
-- triple, a blank one included.
pub resolve_target_triple_lem :
    (override_target : Option Text) (host : Text) (t : SupportedTargetTriple)
    → trim host ≡ codes (triple_as_str t)
    → (chosen : SupportedTargetTriple) × (resolve_target_triple override_target host
        ≡ codes (triple_as_str chosen))
      × IsChosen override_target t chosen
unfolding resolve_target_triple try_resolve_target_triple
resolve_target_triple_lem none host t named =
    let h = parse_named host t named in
    (t, rw (resolve_target_triple, try_resolve_target_triple, h) refl, refl)
resolve_target_triple_lem (some raw) host t named =
    let h = parse_named host t named in
    elim (Bool-cases (is_empty (trim raw))) [
      | inl blank ↦ (
        t,
        rw (resolve_target_triple, try_resolve_target_triple, blank, h) refl,
        inr (refl, blank_unsupported raw blank),
      )
      | inr given ↦ elim (Result-cases (parse_supported_target_triple (trim raw))) [
        | inr (e, q) ↦ (
          t,
          rw (resolve_target_triple, try_resolve_target_triple, given, q, h) refl,
          inr (refl, unsupported raw e q),
        )
        | inl (t', q) ↦ (
          t',
          rw (resolve_target_triple, try_resolve_target_triple, given, q) refl,
          inl (sym (trim-trim raw) ∙ parse_supported_target_triple-eq_ok (trim raw) t' q),
        )
      ]
    ]
