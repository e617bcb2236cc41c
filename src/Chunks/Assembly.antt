-- ===== src/Chunks/Assembly.antt =====
-- rns_icn/assembler.py: chunks put together again, with their hashes and signatures checked.
use rns_icn.Prelude.{ℕ, Bool, true, false, not, ◌&&◌, Option, none, some, is_some}
use rns_icn.Prelude.{List, [], ◌∷◌, ◌++◌, filter, map, ◌==◌, nat_eq, list_eq, if◌then◌else◌}
use rns_icn.Prelude.{Dict, get, put}
use rns_icn.Wire.{
  Result, ok, raise, ◌>>=◌, missing_chunk, hash_mismatch, integrity_error, signature_error,
}
use rns_icn.Packet.Data.{Data}
use rns_icn.Packet.Data.Envelope.{verify_signature}
use rns_icn.Chunks.{Label, ChunkRef, ContentManifest}

abbrev pub Validator : Type 0
Validator = List ℕ → List ℕ → Bool

-- `_require_chunk`
unfoldable pub require_chunk : ChunkRef → Dict Label Data → Result Data
require_chunk ref chunks = elim (get ref.label chunks) [
  | none ↦ raise missing_chunk
  | some d ↦ ok d
]

module _ (blake2b : List ℕ → List ℕ) where
  -- `_verify_chunk_hash`
  unfoldable pub verify_chunk_hash : ChunkRef → Data → Result (Unit {0})
  verify_chunk_hash ref d = elim d.metadata.content_hash [
    | none ↦ raise hash_mismatch
    | some h ↦
        if h == ref.content_hash
        then (if blake2b d.content == ref.content_hash then ok tt else raise hash_mismatch)
        else raise hash_mismatch
  ]

  -- `_verify_chunk_signature`
  unfoldable pub verify_chunk_signature : Data → Validator → Result (Unit {0})
  unfolding verify_signature
  verify_chunk_signature d validator = elim d.signature [
    | none ↦ raise signature_error
    | some sig ↦ do
      valid ← verify_signature blake2b validator d
      if valid then ok tt else raise signature_error
  ]

  -- `if validator is not None`
  unfoldable pub check_signature : Data → Option Validator → Result (Unit {0})
  unfolding verify_chunk_signature
  check_signature d none = ok tt
  check_signature d (some validator) = verify_chunk_signature d validator

  -- `_verify_content_hash`
  unfoldable pub verify_content_hash : Option (List ℕ) → List ℕ → Result (Unit {0})
  verify_content_hash none content = ok tt
  verify_content_hash (some h) content =
      if blake2b content == h then ok tt else raise integrity_error

  -- the loop of `assemble` and of `assemble_verified`
  unfoldable pub assemble_loop :
      Dict Label Data → Option Validator → List ChunkRef → Result (List ℕ)
  unfolding require_chunk verify_chunk_hash check_signature
  assemble_loop chunks validator [] = ok []
  assemble_loop chunks validator (ref ∷ refs) = do
    d ← require_chunk ref chunks
    _ ← verify_chunk_hash ref d
    _ ← check_signature d validator
    rest ← assemble_loop chunks validator refs
    ok (d.content ++ rest)

  unfoldable pub assemble_verified :
      ContentManifest → Dict Label Data → Option Validator → Result (List ℕ)
  unfolding assemble_loop
  assemble_verified manifest chunks validator = assemble_loop chunks validator manifest.chunks

  unfoldable pub assemble : ContentManifest → Dict Label Data → Option Validator → Result (List ℕ)
  unfolding assemble_loop verify_content_hash
  assemble manifest chunks validator = do
    total ← assemble_loop chunks validator manifest.chunks
    _ ← verify_content_hash manifest.content_hash total
    ok total

  -- `verify_chunk`
  unfoldable pub verify_chunk : ChunkRef → Data → Option Validator → Result Bool
  unfolding verify_signature
  verify_chunk ref d validator = elim d.metadata.content_hash [
    | none ↦ ok false
    | some h ↦
        if h == ref.content_hash && blake2b d.content == ref.content_hash
        then (elim validator [ none ↦ ok true | some v ↦ verify_signature blake2b v d ])
        else ok false
  ]

  unfoldable pub verify_present : ChunkRef → Option Data → Option Validator → Result Bool
  unfolding verify_chunk
  verify_present ref none validator = ok false
  verify_present ref (some d) validator = verify_chunk ref d validator

  -- the loop of `verify_chunks`, with the results so far
  unfoldable pub verify_chunks_from :
      Dict Label Bool
      → List ChunkRef
      → Dict Label Data
      → Option Validator
      → Result (Dict Label Bool)
  unfolding verify_present
  verify_chunks_from results [] chunks validator = ok results
  verify_chunks_from results (ref ∷ refs) chunks validator = do
    valid ← verify_present ref (get ref.label chunks) validator
    verify_chunks_from (put ref.label valid results) refs chunks validator

-- the loop of `assemble_fast`
unfoldable pub join_chunks : Dict Label Data → List ChunkRef → Result (List ℕ)
unfolding require_chunk
join_chunks chunks [] = ok []
join_chunks chunks (ref ∷ refs) = do
  d ← require_chunk ref chunks
  rest ← join_chunks chunks refs
  ok (d.content ++ rest)

unfoldable pub assemble_fast : ContentManifest → Dict Label Data → Result (List ℕ)
unfolding join_chunks
assemble_fast manifest chunks = join_chunks chunks manifest.chunks

unfoldable pub missing_labels : ContentManifest → Dict Label Data → List Label
missing_labels manifest chunks =
    map (λ ref. ref.label) (filter (λ ref. not (is_some (get ref.label chunks))) manifest.chunks)
