-- ===== src/Integrity/Hex.antt =====
-- The text form of a digest, and what the parsers accept.
use omne_runtime.Base.{
  not, all-append, ◌++◌, ◌%◌, ltb→lt, codes, ◌/◌, ◌+◌, Bool, &&-eq_true, false, ◌<◌, arith, ◌*◌, ℕ,
  ◌≡◌, ltb, length, all, Bytes, [], ◌∷◌, refl, true, some,
}
use omne_runtime.Integrity.{
  to_string, parse_sha256_digest, decode_sha256_hex, Sha256Digest, hex_digit, to_hex, decode_pairs,
  decode_hex_nibble,
}
use omne_runtime.Text.{is_whitespace, is_ascii_upper}
use omne_runtime.Text.Laws.{
  strip_prefix-append, as_bytes-ascii, to_ascii_lowercase-all, trim-all, is_printable,
}

hex_digit_cases :
    (n : ℕ)
    → n < 16
    → (decode_hex_nibble (hex_digit n) ≡ some n)
      × (ltb (hex_digit n) 0x80 ≡ true)
      × (is_ascii_upper (hex_digit n) ≡ false)
      × (is_whitespace (hex_digit n) ≡ false)
unfolding decode_hex_nibble hex_digit is_ascii_upper is_whitespace
hex_digit_cases n h = (ground arith, ground arith, ground arith, ground arith)

decode_pairs_step :
    (first second hi lo : ℕ) (rest out : Bytes)
    → decode_hex_nibble first ≡ some hi
    → decode_hex_nibble second ≡ some lo
    → decode_pairs rest ≡ some out
    → decode_pairs (first ∷ second ∷ rest) ≡ some ((hi * 16 + lo) ∷ out)
unfolding decode_pairs
decode_pairs_step first second hi lo rest out p q r = rw (decode_pairs, p, q, r) refl

decode_pairs-to_hex :
    (bytes : Bytes) → all (λ b. ltb b 256) bytes ≡ true → decode_pairs (to_hex bytes) ≡ some bytes
unfolding to_hex decode_pairs
decode_pairs-to_hex [] h = refl
decode_pairs-to_hex (b ∷ bytes) h =
    let (small, rest) = &&-eq_true (ltb b 256) (all (λ c. ltb c 256) bytes) h in
    let high : b / 16 < 16 = ground (arith, ltb→lt b 256 small) in
    let low : b % 16 < 16 = omega arith in
    let same : b / 16 * 16 + b % 16 ≡ b = omega arith in
    let step =
      decode_pairs_step _ _ _ _ _ _ (hex_digit_cases (b / 16) high).0
        (hex_digit_cases (b % 16) low).0 (decode_pairs-to_hex bytes rest) in
    rw step (rw same refl)

prefix_printable : all is_printable (codes "sha256:") ≡ true
unfolding codes is_whitespace
prefix_printable = refl

all-to_hex :
    (p : ℕ → Bool)
    → ((n : ℕ) → n < 16 → p (hex_digit n) ≡ true)
    → (bytes : Bytes) → all (λ b. ltb b 256) bytes ≡ true
    → all p (to_hex bytes) ≡ true
unfolding to_hex
all-to_hex p each [] h = refl
all-to_hex p each (b ∷ bytes) h =
    let (small, rest) = &&-eq_true (ltb b 256) (all (λ c. ltb c 256) bytes) h in
    let high : b / 16 < 16 = ground (arith, ltb→lt b 256 small) in
    let low : b % 16 < 16 = omega arith in
    rw (each (b / 16) high, each (b % 16) low, all-to_hex p each bytes rest) refl

length-to_hex : (bytes : Bytes) → length (to_hex bytes) ≡ 2 * length bytes
unfolding to_hex
length-to_hex [] = refl
length-to_hex (b ∷ bytes) = let ih = length-to_hex bytes in omega arith

-- A digest: 32 bytes.
pub record IsDigest (digest : Sha256Digest) : Type 0 where
  pub byte_count : length digest.bytes ≡ 32
  pub byte_bound : all (λ b. ltb b 256) digest.bytes ≡ true

module _ (digest : Sha256Digest) (valid : IsDigest digest) where
  to_string-printable : all is_printable (to_string digest) ≡ true
  unfolding to_string
  to_string-printable =
      all-to_hex is_printable
        (λ n h. let (value, ascii, lower, blank) = hex_digit_cases n h in rw blank refl)
        digest.bytes valid.byte_bound

  decode_sha256_hex-to_string : decode_sha256_hex (to_string digest) ≡ some digest
  unfolding decode_sha256_hex to_string
  decode_sha256_hex-to_string =
      let bound = valid.byte_bound in
      let trimmed = trim-all (to_hex digest.bytes) to_string-printable in
      let lowered = to_ascii_lowercase-all (to_hex digest.bytes) (
        all-to_hex (λ c. not (is_ascii_upper c))
          (λ n h. let (value, small, lower, blank) = hex_digit_cases n h in rw lower refl)
          digest.bytes bound) in
      let ascii = as_bytes-ascii (to_hex digest.bytes) (
        all-to_hex (λ c. ltb c 0x80)
          (λ n h. let (value, small, lower, blank) = hex_digit_cases n h in small) digest.bytes
          bound) in
      let long : length (to_hex digest.bytes) ≡ 64 =
        rw (length-to_hex digest.bytes, valid.byte_count) refl in
      rw (trimmed, lowered, ascii, long, decode_pairs-to_hex digest.bytes bound) refl

  -- A digest of 32 bytes, printed behind the prefix `sha256:`, is parsed back.
  pub parse_sha256_digest-to_string :
      parse_sha256_digest (some (codes "sha256:" ++ to_string digest)) ≡ some digest
  unfolding parse_sha256_digest
  parse_sha256_digest-to_string =
      let plain = to_string-printable in
      let prefixed : all is_printable (codes "sha256:" ++ to_string digest) ≡ true =
        rw (all-append is_printable (codes "sha256:") (to_string digest), plain, prefix_printable)
          refl in
      rw
        (
          parse_sha256_digest,
          trim-all (codes "sha256:" ++ to_string digest) prefixed,
          strip_prefix-append (codes "sha256:") (to_string digest),
          trim-all (to_string digest) plain,
          decode_sha256_hex-to_string,
        )
        refl
