-- ===== src/Integrity/Tests.antt =====
-- The theorems of digests at a small hash, which is 32 copies of the content's first byte.
use omne_runtime.Base.{
  map_err, ◌≡◌, ◌++◌, ◌%◌, suc, codes, Text, ℕ, List, Bytes, [], ◌∷◌, refl, some, ok,
}
use Prim.Native.Nat.{zero}
use mathlib.Core.List.{append_assoc, append-nil}
use omne_runtime.Integrity.{
  mismatch, as_bytes, to_string, hash_sha256, verify_sha256_reader, verify_sha256,
  parse_sha256_digest, hash_sha256_reader, hash_sha256_json_chain, Sha256Digest, Sha256, IsSha256,
}
use omne_runtime.Integrity.Hex.{parse_sha256_digest-to_string, IsDigest}
use omne_runtime.Integrity.Reading.{
  verify_sha256_reader-content, hash_sha256_json_chain-content, hash_sha256_reader-content, answers,
}
use omne_runtime.Text.{as_bytes}

first_or_zero : Bytes → ℕ
first_or_zero [] = 0
first_or_zero (b ∷ bytes) = b % 256

repeat_byte : ℕ → ℕ → Bytes
repeat_byte zero b = []
repeat_byte (suc n) b = b ∷ repeat_byte n b

abbrev toy : Sha256
toy = record {
  State = Bytes;
  fresh = [];
  absorb = λ s bytes. s ++ bytes;
  digest = λ s. repeat_byte 32 (first_or_zero s);
}

toy-IsSha256 : IsSha256 toy
unfolding repeat_byte
toy-IsSha256 = record {
  absorb_empty = λ s. append-nil s;
  absorb_append = λ s a b. append_assoc s a b;
  digest_length = λ s. refl;
}

abbrev sample_digest : Sha256Digest
sample_digest = record { bytes = repeat_byte 32 0xAB }

sample_digest-IsDigest : IsDigest sample_digest
unfolding repeat_byte
sample_digest-IsDigest = record { byte_count = refl; byte_bound = refl }

parse_sha256_digest-to_string_example :
    parse_sha256_digest (some (codes "sha256:" ++ to_string sample_digest)) ≡ some sample_digest
parse_sha256_digest-to_string_example =
    parse_sha256_digest-to_string sample_digest sample_digest-IsDigest

abbrev two_chunks : List Bytes
two_chunks = (1 ∷ 2 ∷ []) ∷ (3 ∷ []) ∷ []

hash_sha256_reader-content_example :
    hash_sha256_reader toy (answers two_chunks) ≡ ok (hash_sha256 toy (1 ∷ 2 ∷ 3 ∷ []))
hash_sha256_reader-content_example = hash_sha256_reader-content toy toy-IsSha256 two_chunks refl

verify_sha256_reader-content_example :
    verify_sha256_reader toy (answers two_chunks) sample_digest
    ≡ map_err (verify_sha256 toy (1 ∷ 2 ∷ 3 ∷ []) sample_digest) mismatch
verify_sha256_reader-content_example =
    verify_sha256_reader-content toy toy-IsSha256 two_chunks sample_digest refl

hash_sha256_json_chain-content_example :
    hash_sha256_json_chain toy {JsonError = Text} (some (codes "ab")) (ok (b'1' ∷ []))
    ≡ ok (hash_sha256 toy (as_bytes (codes "ab") ++ b'\n' ∷ b'1' ∷ []))
hash_sha256_json_chain-content_example =
    hash_sha256_json_chain-content toy toy-IsSha256 (codes "ab") (b'1' ∷ [])
