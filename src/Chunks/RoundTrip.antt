-- ===== src/Chunks/RoundTrip.antt =====
-- Cutting content into chunks and assembling them are inverse.
use rns_icn.Prelude.{ℕ, zero, suc, ◌+◌, ◌≤◌, ◌<◌, ◌≡◌, ◌≢◌, refl, ap, Option, none, some, arith}
use rns_icn.Prelude.{
  List, [], ◌∷◌, ◌++◌, All, map, length, take, drop, take-append-drop, nat_eq, list_eq, eq_refl,
}
use rns_icn.Prelude.{Dict, get}
use rns_icn.Wire.{ok}
use rns_icn.Name
use rns_icn.Name.{Name, rns_addr}
use rns_icn.Packet.Data.{Data}
use rns_icn.Packet.Data.Envelope
use rns_icn.Packet.Data.Envelope.{verify_signature}
use rns_icn.Chunks.{
  Label, ChunkRef, chunk_label, sign_opt, with_sequence, chunk_ref, chunk_packet, chunk_loop,
  chunk_result, chunk_content, create,
}
use rns_icn.Chunks.Assembly.{check_signature, verify_content_hash, assemble_loop, assemble}
use rns_icn.Chunks.Checked.{require_chunk-found, verify_chunk_hash-good}

-- The dictionary has every packet under the label of its reference.
abbrev pub Holds : Dict Label Data → List (ChunkRef × Data) → Type 0
Holds chunks = All (λ c. get c.0.label chunks ≡ some c.1)

take_drop-shorter :
    (k b : ℕ) (bs : List ℕ) (n : ℕ) → 0 < k → length (b ∷ bs) ≤ suc n → length (drop k (b ∷ bs)) ≤ n
take_drop-shorter zero b bs n h k = absurd (omega arith)
take_drop-shorter (suc k) b bs n h l = omega (arith, length-drop-le k bs)
  where
    length-drop-le : (k : ℕ) (bs : List ℕ) → length (drop k bs) ≤ length bs
    length-drop-le zero bs = omega arith
    length-drop-le (suc k) [] = omega arith
    length-drop-le (suc k) (b ∷ bs) = omega (arith, length-drop-le k bs)

-- a name by its address and its path
abbrev pub whole : List ℕ → List (List ℕ) → Option (List ℕ) → Name
whole addr path h = record { components = addr ∷ path; content_hash = h }

module _ (blake2b : List ℕ → List ℕ) (wide : (x : List ℕ) → length (blake2b x) ≡ 32) (now : ℕ)
    (addr : List ℕ) (path : List (List ℕ)) (h : Option (List ℕ))
    (addr_size : length addr ≡ 16) where
  chunk_packet_lem :
      (idx : ℕ) (bs : List ℕ)
      → (d : Data) × (chunk_packet blake2b none now (whole addr path h) idx bs ≡ ok d)
        × (d.content ≡ bs)
        × (d.metadata.content_hash ≡ some (blake2b bs))
  unfolding chunk_packet rns_addr Name.new sign_opt Envelope.new
  chunk_packet_lem idx bs = (
    with_sequence
        (Envelope.new blake2b
          (record {
            components = addr ∷ (path ++ (chunk_label idx ∷ []));
            content_hash = some (blake2b bs);
          })
          bs)
        idx,
    rw (addr_size, wide bs) refl,
    refl,
    refl,
  )

  chunk_loop_lem :
      (fuel size idx : ℕ) (bs : List ℕ)
      → 0 < size
      → length bs ≤ fuel
      → (cs : List (ChunkRef × Data)) × (chunk_loop blake2b none now
            (whole addr path h)
            fuel
            size
            idx
            bs
          ≡ ok cs)
        × ((chunks : Dict Label Data)
            → Holds chunks cs
            → assemble_loop blake2b chunks none (map (λ c. c.0) cs) ≡ ok bs)
  unfolding chunk_loop assemble_loop check_signature
  chunk_loop_lem zero size idx [] s l = ([], refl, λ chunks k. refl)
  chunk_loop_lem zero size idx (b ∷ bs) s l = absurd (omega arith)
  chunk_loop_lem (suc fuel) size idx [] s l = ([], refl, λ chunks k. refl)
  chunk_loop_lem (suc fuel) size idx (b ∷ bs) s l =
      let front = take size (b ∷ bs) in
      let (d, made, same, hash) = chunk_packet_lem idx front in
      let (cs, looped, back) =
        chunk_loop_lem fuel size (idx + 1) (drop size (b ∷ bs)) s
          (take_drop-shorter size b bs fuel s l) in
      (
        (chunk_ref blake2b none now (whole addr path h) idx front, d) ∷ cs,
        rw (made, looped) refl,
        λ chunks (found, k).
            let ref = chunk_ref blake2b none now (whole addr path h) idx front in
            rw
              (
                require_chunk-found ref chunks d found,
                verify_chunk_hash-good blake2b ref d hash (ap blake2b same),
                back chunks k,
                same,
              )
              (ap ok (take-append-drop size (b ∷ bs))),
      )

  -- Cut content that is not empty into chunks of a positive size, unsigned, under a name whose
  -- address has 16 bytes, with a hash of 32 bytes: `chunk_content` returns a result, and from any
  -- dictionary with every packet under its label `assemble` returns the content.
  pub assemble-chunk_content :
      (content : List ℕ) (size sequence : ℕ)
      → content ≢ []
      → 0 < size
      → (cs : List (ChunkRef × Data)) × (chunk_content blake2b none now
            (whole addr path h)
            content
            size
            sequence
          ≡ ok (chunk_result blake2b none now (whole addr path h) content sequence cs))
        × ((chunks : Dict Label Data)
            → Holds chunks cs
            → assemble blake2b
                (chunk_result blake2b none now (whole addr path h) content sequence cs).manifest
                chunks
                none
              ≡ ok content)
  unfolding chunk_content assemble create verify_content_hash
  assemble-chunk_content [] size sequence n s = absurd (n refl)
  assemble-chunk_content (b ∷ bs) size sequence n s =
      let (cs, looped, back) = chunk_loop_lem (length (b ∷ bs)) size 0 (b ∷ bs) s (omega arith) in
      (cs, rw looped refl, λ chunks k. rw (back chunks k, eq_refl (blake2b (b ∷ bs))) refl)
