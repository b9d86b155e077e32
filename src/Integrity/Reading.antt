-- ===== src/Integrity/Reading.antt =====
-- Digests of contents that come in chunks, and what a verification says.
use omne_runtime.Base.{
  ◌∙◌, ap, inr, inl, text_eq, Bool-cases, sym, arith, text_eq_iff, map_err, ◌↔◌, ok, not, Text, ◌≡◌,
  map, all, ◌++◌, Bytes, List, [], ◌∷◌, refl, true, some,
}
use mathlib.Core.List.{append_assoc}
use omne_runtime.Integrity.{
  mismatch, new, finalize, as_bytes, Sha256Hasher, update, hash_sha256, verify_sha256_reader,
  read_loop, hash_sha256_reader, hash_sha256_json_chain, Sha256Digest, Reader, IsSha256,
  verify_sha256, Sha256,
}
use omne_runtime.Text.{is_empty, as_bytes}

-- The content that is read by a stream of chunks, none of them empty.
abbrev pub content_of : List Bytes → Bytes
content_of [] = []
content_of (chunk ∷ chunks) = chunk ++ content_of chunks

abbrev pub answers : List Bytes → Reader
answers = map ok

module _ (sha : Sha256) (lawful : IsSha256 sha) where
  read_loop-answers :
      (chunks : List Bytes) (hasher : Sha256Hasher sha)
      → all (λ chunk. not (is_empty chunk)) chunks ≡ true
      → read_loop sha hasher (answers chunks)
        ≡ ok (finalize sha (update sha hasher (content_of chunks)))
  unfolding read_loop update
  read_loop-answers [] hasher h = rw (lawful.absorb_empty hasher.inner) refl
  read_loop-answers ([] ∷ chunks) hasher h = cc
  read_loop-answers ((byte ∷ chunk) ∷ chunks) hasher h =
      rw (sym (lawful.absorb_append hasher.inner (byte ∷ chunk) (content_of chunks)))
        (read_loop-answers chunks (update sha hasher (byte ∷ chunk)) h)

  -- For a hash whose digest depends on the absorbed bytes alone, a stream of chunks that are not
  -- empty has the digest of the chunks joined, however the content is cut.
  pub hash_sha256_reader-content :
      (chunks : List Bytes)
      → all (λ chunk. not (is_empty chunk)) chunks ≡ true
      → hash_sha256_reader sha (answers chunks) ≡ ok (hash_sha256 sha (content_of chunks))
  unfolding hash_sha256_reader hash_sha256
  hash_sha256_reader-content chunks h = read_loop-answers chunks (new sha) h

  -- For a hash whose digest depends on the absorbed bytes alone, the verification of a stream of
  -- chunks that are not empty answers as the verification of the joined content does, the mismatch
  -- report included.
  pub verify_sha256_reader-content :
      (chunks : List Bytes) (expected : Sha256Digest)
      → all (λ chunk. not (is_empty chunk)) chunks ≡ true
      → verify_sha256_reader sha (answers chunks) expected
        ≡ map_err (verify_sha256 sha (content_of chunks) expected) mismatch
  unfolding verify_sha256_reader verify_sha256
  verify_sha256_reader-content chunks expected h =
      let same = hash_sha256_reader-content chunks h in
      elim (Bool-cases (text_eq (hash_sha256 sha (content_of chunks)).bytes expected.bytes)) [
        | inl e ↦ rw (same, e) refl
        | inr e ↦ rw (same, e) refl
      ]

  -- For a hash whose digest depends on the absorbed bytes alone, a chained record whose
  -- serialisation succeeds has the digest of the text of the previous hash, a line feed and the
  -- serialised record, joined.
  pub hash_sha256_json_chain-content {ℓ} :
      {JsonError : Type ℓ} (prev_hash : Text) (serialized : Bytes)
      → hash_sha256_json_chain sha {JsonError = JsonError} (some prev_hash) (ok serialized)
        ≡ ok (hash_sha256 sha (as_bytes prev_hash ++ b'\n' ∷ serialized))
  unfolding hash_sha256_json_chain hash_sha256 update new
  hash_sha256_json_chain-content prev_hash serialized =
      let text = as_bytes prev_hash in
      let joined =
        ap (λ s. sha.absorb s serialized) (lawful.absorb_append sha.fresh text (b'\n' ∷ []))
        ∙ lawful.absorb_append sha.fresh (text ++ b'\n' ∷ []) serialized
        ∙ ap (sha.absorb sha.fresh) (append_assoc text (b'\n' ∷ []) serialized) in
      ap (λ s. ok (finalize sha (record { inner = s }))) joined

-- A content is verified exactly when its digest is the expected one.
pub verify_sha256_iff :
    (sha : Sha256) (content : Bytes) (expected : Sha256Digest)
    → ((verify_sha256 sha content expected ≡ ok tt) ↔ (hash_sha256 sha content ≡ expected))
unfolding verify_sha256
verify_sha256_iff sha content expected =
    let exact = text_eq_iff (hash_sha256 sha content).bytes expected.bytes in
    (λ h. ground (arith, exact), λ h. ground (arith, exact))
