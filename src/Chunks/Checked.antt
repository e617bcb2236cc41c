-- ===== src/Chunks/Checked.antt =====
-- What `assemble` returns has been checked.
use rns_icn.Prelude.{ℕ, ◌≡◌, refl, ap, ◌∙◌, Option, none, some, arith, inl, inr}
use rns_icn.Prelude.{
  List, [], ◌∷◌, All, ◌==◌, nat_eq, list_eq, eq_of_beq, eq_refl, if◌then◌else◌, Bool-cases,
}
use rns_icn.Prelude.{Dict, get}
use rns_icn.Prelude.{sym, Bool, true, false}
use rns_icn.Wire.{Result, ◌>>=◌, ok, raise, missing_chunk, hash_mismatch, signature_error, IfOk}
use rns_icn.Wire.Readers.{>>=-IfOk}
use rns_icn.Packet.Data.{Data}
use rns_icn.Packet.Data.Envelope.{verify_signature}
use rns_icn.Chunks.{Label, ChunkRef, ContentManifest}
use rns_icn.Chunks.Assembly.{
  Validator, require_chunk, verify_chunk_hash, verify_chunk_signature, check_signature,
  verify_content_hash, assemble_loop, assemble, join_chunks, assemble_fast,
}

pub require_chunk-found :
    (ref : ChunkRef) (chunks : Dict Label Data) (d : Data)
    → get ref.label chunks ≡ some d
    → require_chunk ref chunks ≡ ok d
unfolding require_chunk
require_chunk-found ref chunks d e =
    ap (λ o. elim o [ none ↦ raise missing_chunk | some c ↦ ok c ]) e

abbrev or_else : Validator → Option Validator → Validator
or_else v none = v
or_else v (some w) = w

module _ (blake2b : List ℕ → List ℕ) where
  pub verify_chunk_hash-good :
      (ref : ChunkRef) (d : Data)
      → d.metadata.content_hash ≡ some ref.content_hash
      → blake2b d.content ≡ ref.content_hash
      → verify_chunk_hash blake2b ref d ≡ ok tt
  unfolding verify_chunk_hash
  verify_chunk_hash-good ref d e same =
      ap
        (λ o. elim o [
          | none ↦ raise hash_mismatch
          | some h ↦
              if h == ref.content_hash
              then (if blake2b d.content == ref.content_hash then ok tt else raise hash_mismatch)
              else raise hash_mismatch
        ])
        e
      ∙ rw (same, eq_refl ref.content_hash) refl

  valid_or_raise :
      (v : Validator) (d : Data) (r : Result Bool)
      → verify_signature blake2b v d ≡ r
      → IfOk {0, 0} {A = Unit {0}}
          (λ _. (w : Validator) → some v ≡ some w → verify_signature blake2b w d ≡ ok true)
          (r >>= λ valid. if valid then ok tt else raise signature_error)
  valid_or_raise v d (raise x) e = tt
  valid_or_raise v d (ok false) e = tt
  valid_or_raise v d (ok true) e =
      λ w same. ap (λ o. verify_signature blake2b (or_else v o) d) (sym same) ∙ e

  signed :
      (d : Data) (v : Validator)
      → IfOk {0, 0} {A = Unit {0}}
          (λ _. (w : Validator) → some v ≡ some w → verify_signature blake2b w d ≡ ok true)
          (verify_chunk_signature blake2b d v)
  unfolding verify_chunk_signature
  signed d v = go d.signature
    where
      go :
          (o : Option (List ℕ))
          → IfOk {0, 0} {A = Unit {0}}
              (λ _. (w : Validator) → some v ≡ some w → verify_signature blake2b w d ≡ ok true)
              (elim o [
                | none ↦ raise signature_error
                | some sig ↦ verify_signature blake2b v d >>= λ valid.
                    if valid then ok tt else raise signature_error
              ])
      go none = tt
      go (some sig) = valid_or_raise v d (verify_signature blake2b v d) refl

  check_signature-valid :
      (d : Data) (validator : Option Validator)
      → IfOk {0, 0} {A = Unit {0}}
          (λ _. (v : Validator) → validator ≡ some v → verify_signature blake2b v d ≡ ok true)
          (check_signature blake2b d validator)
  unfolding check_signature
  check_signature-valid d none = λ v e. cc
  check_signature-valid d (some w) = signed d w

  -- The dictionary has the reference's packet, whose content has the reference's hash, and whose
  -- signature verifies if there is a validator.
  abbrev pub Genuine : Dict Label Data → Option Validator → ChunkRef → Type 0
  Genuine chunks validator ref =
      (d : Data) × (get ref.label chunks ≡ some d)
      × (blake2b d.content ≡ ref.content_hash)
      × ((v : Validator) → validator ≡ some v → verify_signature blake2b v d ≡ ok true)

  require_chunk-get :
      (ref : ChunkRef) (chunks : Dict Label Data)
      → IfOk (λ d. get ref.label chunks ≡ some d) (require_chunk ref chunks)
  unfolding require_chunk
  require_chunk-get ref chunks = go (get ref.label chunks) refl
    where
      go :
          (o : Option Data)
          → get ref.label chunks ≡ o
          → IfOk
              (λ d. get ref.label chunks ≡ some d)
              (elim o [ none ↦ raise missing_chunk | some d ↦ ok d ])
      go none e = tt
      go (some d) e = e

  verify_chunk_hash-content :
      (ref : ChunkRef) (d : Data)
      → IfOk (λ _. blake2b d.content ≡ ref.content_hash) (verify_chunk_hash blake2b ref d)
  unfolding verify_chunk_hash
  verify_chunk_hash-content ref d = go d.metadata.content_hash
    where
      go :
          (o : Option (List ℕ))
          → IfOk {0, 0} {A = Unit {0}}
              (λ _. blake2b d.content ≡ ref.content_hash)
              (elim o [
                | none ↦ raise hash_mismatch
                | some h ↦
                    if h == ref.content_hash
                    then (if blake2b d.content == ref.content_hash
                        then ok tt
                        else raise hash_mismatch)
                    else raise hash_mismatch
              ])
      go none = tt
      go (some h) = elim (Bool-cases (h == ref.content_hash)) [
        | inr t ↦ rw t tt
        | inl t ↦ rw t (elim (Bool-cases (blake2b d.content == ref.content_hash)) [
          | inr u ↦ rw u tt
          | inl u ↦ rw u (eq_of_beq (blake2b d.content) ref.content_hash u)
        ])
      ]

  -- What the loop returns has been checked chunk by chunk, and is what `assemble_fast` joins.
  assemble_loop-checked :
      (chunks : Dict Label Data) (validator : Option Validator) (refs : List ChunkRef)
      → IfOk
          (λ content. All (Genuine chunks validator) refs × (join_chunks chunks refs ≡ ok content))
          (assemble_loop blake2b chunks validator refs)
  unfolding assemble_loop join_chunks
  assemble_loop-checked chunks validator [] = (tt, refl)
  assemble_loop-checked chunks validator (ref ∷ refs) =
      >>=-IfOk _ (require_chunk ref chunks) _ (require_chunk-get ref chunks) (λ d found.
        >>=-IfOk _ (verify_chunk_hash blake2b ref d) _ (verify_chunk_hash-content ref d) (λ _ same.
          >>=-IfOk _ (check_signature blake2b d validator) _ (check_signature-valid d validator)
            (λ _ valid.
              >>=-IfOk _ (assemble_loop blake2b chunks validator refs) _
                (assemble_loop-checked chunks validator refs)
                (λ rest (good, joined). (
                  ((d, found, same, valid), good),
                  rw (require_chunk-found ref chunks d found, joined) refl,
                )))))

  verify_content_hash-equal :
      (h : Option (List ℕ)) (content : List ℕ)
      → IfOk
          (λ _. (k : List ℕ) → h ≡ some k → blake2b content ≡ k)
          (verify_content_hash blake2b h content)
  unfolding verify_content_hash
  verify_content_hash-equal none content = λ k e. cc
  verify_content_hash-equal (some h) content = elim (Bool-cases (blake2b content == h)) [
    | inr t ↦ rw t tt
    | inl t ↦ rw t (λ k e. eq_of_beq (blake2b content) h t ∙ ground arith)
  ]

  -- If `assemble` returns content, then every chunk of the manifest is there and has the hash that
  -- the manifest gives, its signature verifies if a validator is given, the content is what
  -- `assemble_fast` joins, and it has the manifest's hash if that has one.
  pub assemble-checked :
      (manifest : ContentManifest) (chunks : Dict Label Data) (validator : Option Validator)
      → IfOk
          (λ content.
            All (Genuine chunks validator) manifest.chunks
            × (assemble_fast manifest chunks ≡ ok content)
            × ((k : List ℕ) → manifest.content_hash ≡ some k → blake2b content ≡ k))
          (assemble blake2b manifest chunks validator)
  unfolding assemble assemble_fast
  assemble-checked manifest chunks validator =
      >>=-IfOk _ (assemble_loop blake2b chunks validator manifest.chunks) _
        (assemble_loop-checked chunks validator manifest.chunks)
        (λ content (good, joined).
          >>=-IfOk _ (verify_content_hash blake2b manifest.content_hash content) _
            (verify_content_hash-equal manifest.content_hash content)
            (λ _ same. (good, joined, same)))
