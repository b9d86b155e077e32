-- ===== src/Integrity.antt =====
-- crates/omne-integrity-primitives/src/lib.rs: SHA-256 digests, their text form, and the comparison
-- of a content with an expected digest. The `sha2` and `serde_json` crates are parameters.
pub mod Hex
pub mod Reading
mod Tests
use mathlib.Core.Option
use omne_runtime.Base.{
  codes, ◌*◌, map_err, and_then, [], ◌∷◌, none, some, true, false, ◌>>=◌, ◌==◌, ◌-◌, ◌+◌, ◌&&◌, ◌%◌,
  text_eq, length, ◌/◌, ◌++◌, not, ltb, leb, err, ◌≡◌, ok, if◌then◌else◌, ℕ, Text, Result, Option,
  List, Bytes,
}
use mathlib.Core.Option.{none}
use omne_runtime.Gateway.Error.{IoError}
use omne_runtime.Text.{strip_prefix, to_ascii_lowercase, trim, as_bytes}

-- `sha2::Sha256`
pub record Sha256 : Type 1 where
  pub State : Type 0
  pub fresh : State
  pub absorb : State → Bytes → State
  pub digest : State → Bytes

-- Documented of `sha2::Digest`: a digest depends on the bytes that were fed alone, and has 32 bytes.
pub record IsSha256 (sha : Sha256) : Type 0 where
  pub absorb_empty : (s : sha.State) → sha.absorb s [] ≡ s
  pub absorb_append :
      (s : sha.State) (a b : Bytes) → sha.absorb (sha.absorb s a) b ≡ sha.absorb s (a ++ b)
  pub digest_length : (s : sha.State) → length (sha.digest s) ≡ 32

-- `Sha256Digest`, which holds `[u8; 32]`
pub record Sha256Digest : Type 0 where
  pub bytes : Bytes

-- `Sha256Hasher`
pub record Sha256Hasher (sha : Sha256) : Type 0 where
  pub inner : sha.State

pub record VerifySha256Error : Type 0 where
  pub expected : Sha256Digest
  pub actual : Sha256Digest

pub data VerifySha256ReaderError : Type 0 where
  read_error : IoError → VerifySha256ReaderError
  mismatch : VerifySha256Error → VerifySha256ReaderError

-- `sha256_digest_from_bytes`, whose `copy_from_slice` needs 32 bytes
unfoldable pub sha256_digest_from_bytes : Bytes → Sha256Digest
sha256_digest_from_bytes bytes = record { bytes = bytes }

unfoldable pub hex_digit : ℕ → ℕ
hex_digit n = if ltb n 10 then b'0' + n else b'a' + (n - 10)

-- `Sha256Digest::fmt`: two lower-case hexadecimal digits for a byte
unfoldable pub to_hex : Bytes → Text
to_hex [] = []
to_hex (byte ∷ bytes) = hex_digit (byte / 16) ∷ hex_digit (byte % 16) ∷ to_hex bytes

unfoldable pub to_string : Sha256Digest → Text
to_string digest = to_hex digest.bytes

unfoldable pub decode_hex_nibble : ℕ → Option ℕ
decode_hex_nibble byte =
    if leb b'0' byte && leb byte b'9'
    then some (byte - b'0')
    else if leb b'a' byte && leb byte b'f'
    then some (byte - b'a' + 10)
    else none

-- The loop of `decode_sha256_hex` over two digits at a time. A nibble is below 16, so that
-- `(hi << 4) | lo` is `hi * 16 + lo`.
unfoldable pub decode_pairs : Bytes → Option Bytes
decode_pairs [] = some []
decode_pairs (first ∷ []) = none
decode_pairs (first ∷ second ∷ rest) =
    let decoded = decode_pairs rest in
    and_then (decode_hex_nibble first) λ hi.
      and_then (decode_hex_nibble second) λ lo. Option.map (λ out. (hi * 16 + lo) ∷ out) decoded

unfoldable pub decode_sha256_hex : Text → Option Sha256Digest
decode_sha256_hex raw =
    let bytes = as_bytes (to_ascii_lowercase (trim raw)) in
    if length bytes == 64
    then Option.map (λ out. record { bytes = out }) (decode_pairs bytes)
    else none

unfoldable pub parse_sha256_digest : Option Text → Option Sha256Digest
parse_sha256_digest none = none
parse_sha256_digest (some raw) =
    and_then (strip_prefix (codes "sha256:") (trim raw)) λ value. decode_sha256_hex (trim value)

unfoldable pub parse_sha256_user_input : Text → Option Sha256Digest
parse_sha256_user_input raw =
    let trimmed = trim raw in
    elim (parse_sha256_digest (some trimmed)) [
      | some digest ↦ some digest
      | none ↦ decode_sha256_hex trimmed
    ]

-- The answers that `Read::read` will give, in order: a chunk of the buffer that was filled, of no
-- byte at the end of the stream, or an error. The stream is at its end where no answer is left.
abbrev pub Reader : Type 0
Reader = List (Result IoError Bytes)

module _ (sha : Sha256) where
  unfoldable pub new : Sha256Hasher sha
  new = record { inner = sha.fresh }

  unfoldable pub update : Sha256Hasher sha → Bytes → Sha256Hasher sha
  update hasher bytes = record { inner = sha.absorb hasher.inner bytes }

  unfoldable pub finalize : Sha256Hasher sha → Sha256Digest
  finalize hasher = sha256_digest_from_bytes (sha.digest hasher.inner)

  unfoldable pub hash_sha256 : Bytes → Sha256Digest
  hash_sha256 content = finalize (update new content)

  abbrev pub chain_from : Option Text → Sha256Hasher sha
  chain_from none = new
  chain_from (some prev_hash) = update new (as_bytes prev_hash)

  -- `record_json` is what `serde_json::to_vec` answers for the record.
  unfoldable pub hash_sha256_json_chain {ℓ} :
      {JsonError : Type ℓ} → Option Text → Result JsonError Bytes → Result JsonError Sha256Digest
  hash_sha256_json_chain prev_hash record_json =
      let hasher = update (chain_from prev_hash) (b'\n' ∷ []) in
      do serialized ← record_json; ok (finalize (update hasher serialized))

  -- The loop of `hash_sha256_reader`.
  unfoldable pub read_loop : Sha256Hasher sha → Reader → Result IoError Sha256Digest
  read_loop hasher [] = ok (finalize hasher)
  read_loop hasher (err e ∷ answers) = err e
  read_loop hasher (ok [] ∷ answers) = ok (finalize hasher)
  read_loop hasher (ok (byte ∷ chunk) ∷ answers) = read_loop (update hasher (byte ∷ chunk)) answers

  unfoldable pub hash_sha256_reader : Reader → Result IoError Sha256Digest
  hash_sha256_reader reader = read_loop new reader

  unfoldable pub verify_sha256 : Bytes → Sha256Digest → Result VerifySha256Error (Unit {0})
  verify_sha256 content expected =
      let actual = hash_sha256 content in
      if not (text_eq actual.bytes expected.bytes)
      then err (record { expected = expected; actual = actual })
      else ok tt

  unfoldable pub verify_sha256_reader :
      Reader → Sha256Digest → Result VerifySha256ReaderError (Unit {0})
  verify_sha256_reader reader expected = do
    actual ← map_err (hash_sha256_reader reader) read_error
    if not (text_eq actual.bytes expected.bytes)
        then err (mismatch (record { expected = expected; actual = actual }))
        else ok tt
