-- ===== src/Chunks/Runs.antt =====
-- Concrete runs on chunks.
use rns_icn.Prelude.{ℕ, ◌≡◌, refl, none, some, arith}
use rns_icn.Prelude.{List, [], ◌∷◌, All, length, replicate, Dict}
use rns_icn.Wire.{ok, IfOk}
use rns_icn.Packet.Data.{Data}
use rns_icn.Chunks.{ChunkRef, ContentManifest, chunk_result, chunk_content}
use rns_icn.Chunks.Assembly.{assemble, assemble_fast}
use rns_icn.Chunks.Checked.{Genuine, assemble-checked}
use rns_icn.Chunks.RoundTrip.{Holds, whole, assemble-chunk_content}
use rns_icn.Samples.{addr, content, alice}

-- 32 bytes, the first of them the length of what is hashed.
abbrev hash : List ℕ → List ℕ
hash bs = length bs ∷ replicate 31 0

hash-length : (bs : List ℕ) → length (hash bs) ≡ 32
hash-length bs = refl

assemble-chunk_content_example :
    (cs : List (ChunkRef × Data)) × (chunk_content hash none 0
        (whole addr [] none)
        (1 ∷ 2 ∷ 3 ∷ [])
        2
        1
      ≡ ok (chunk_result hash none 0 (whole addr [] none) (1 ∷ 2 ∷ 3 ∷ []) 1 cs))
    × ((chunks : Dict (List ℕ) Data)
        → Holds chunks cs
        → assemble hash
            (chunk_result hash none 0 (whole addr [] none) (1 ∷ 2 ∷ 3 ∷ []) 1 cs).manifest
            chunks
            none
          ≡ ok (1 ∷ 2 ∷ 3 ∷ []))
assemble-chunk_content_example =
    assemble-chunk_content hash hash-length 0 addr [] none refl (1 ∷ 2 ∷ 3 ∷ []) 2 1 (λ e. cc)
      (omega arith)

-- A manifest of one chunk, and its packet.
abbrev manifest : ContentManifest
manifest = record {
  name = alice;
  chunks = record { label = 1 ∷ []; content_hash = replicate 32 1; size = 3; sequence = none } ∷ [];
  total_size = 3;
  content_hash = none;
  sequence = 1;
  timestamp = 0;
}

assemble-checked_example :
    IfOk
      (λ bytes.
        All (Genuine (λ _. replicate 32 1) ((1 ∷ [], content) ∷ []) none) manifest.chunks
        × (assemble_fast manifest ((1 ∷ [], content) ∷ []) ≡ ok bytes)
        × ((k : List ℕ) → manifest.content_hash ≡ some k → replicate 32 1 ≡ k))
      (assemble (λ _. replicate 32 1) manifest ((1 ∷ [], content) ∷ []) none)
assemble-checked_example =
    assemble-checked (λ _. replicate 32 1) manifest ((1 ∷ [], content) ∷ []) none
