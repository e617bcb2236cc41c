-- ===== src/Chunks.antt =====
-- rns_icn/chunker.py, with `ChunkRef` and `ContentManifest` of rns_icn/manifest.py: content cut into
-- named and hashed chunks. A label is its bytes in UTF-8. The loop runs on fuel, which the length of
-- the content is enough of if the chunk size is positive; with a size of 0 the source loops forever.
pub mod Assembly
pub mod Checked
pub mod RoundTrip
mod Runs
use rns_icn.Prelude.{ℕ, zero, suc, ◌+◌, ◌-◌, ◌/◌, ◌%◌, Option, none, some}
use rns_icn.Prelude.{List, [], ◌∷◌, ◌++◌, map, length, take, drop, replicate, ltb, if◌then◌else◌}
use rns_icn.Wire.{Result, ok, raise, ◌>>=◌, empty_content, out_of_fuel}
use rns_icn.Name
use rns_icn.Name.{Name, rns_addr}
use rns_icn.Packet.Data.{Data}
use rns_icn.Packet.Data.Envelope
use rns_icn.Packet.Data.Envelope.{sign}

abbrev pub Label : Type 0
Label = List ℕ

pub record ChunkRef : Type 0 where
  pub label : Label
  pub content_hash : List ℕ
  pub size : ℕ
  pub sequence : Option ℕ

pub record ContentManifest : Type 0 where
  pub name : Name
  pub chunks : List ChunkRef
  pub total_size : ℕ
  pub content_hash : Option (List ℕ)
  pub sequence : ℕ
  pub timestamp : ℕ

pub record ChunkResult : Type 0 where
  pub manifest : ContentManifest
  pub data_packets : List Data

unfoldable pub total_size : List ChunkRef → ℕ
total_size [] = 0
total_size (c ∷ cs) = c.size + total_size cs

-- `ContentManifest.create`, at the time `now` in seconds
unfoldable pub create : ℕ → Name → List ChunkRef → Option (List ℕ) → ℕ → ContentManifest
unfolding total_size
create now name chunks content_hash sequence = record {
  name = name;
  chunks = chunks;
  total_size = total_size chunks;
  content_hash = content_hash;
  sequence = sequence;
  timestamp = now;
}

-- the decimal digits of `n`, on fuel; `n + 1` is enough
unfoldable pub digits : ℕ → ℕ → List ℕ
digits zero n = []
digits (suc fuel) n =
    let front = digits fuel (n / 10) in
    if ltb n 10 then (48 + n) ∷ [] else front ++ ((48 + n % 10) ∷ [])

abbrev pub pad_zeros : List ℕ → List ℕ
pad_zeros ds = replicate (4 - length ds) 48 ++ ds

-- `_label`: f"chunk_{index:04d}"
unfoldable pub chunk_label : ℕ → Label
unfolding digits
chunk_label index = b'c' ∷ b'h' ∷ b'u' ∷ b'n' ∷ b'k' ∷ b'_' ∷ pad_zeros (digits (index + 1) index)

-- `if signer is not None: data.sign(signer)`
unfoldable pub sign_opt : (List ℕ → List ℕ) → Option (List ℕ → List ℕ) → ℕ → Data → Result Data
unfolding sign
sign_opt blake2b none now d = ok d
sign_opt blake2b (some signer) now d = sign blake2b signer d none now

-- `with_sequence`
abbrev pub with_sequence : Data → ℕ → Data
with_sequence d seq = record d { metadata = record (d.metadata) { sequence = some seq } }

module _ (blake2b : List ℕ → List ℕ) (signer : Option (List ℕ → List ℕ)) (now : ℕ)
    (name : Name) where
  abbrev pub chunk_ref : ℕ → List ℕ → ChunkRef
  chunk_ref idx chunk_bytes = record {
    label = chunk_label idx;
    content_hash = blake2b chunk_bytes;
    size = length chunk_bytes;
    sequence = some idx;
  }

  unfoldable pub chunk_packet : ℕ → List ℕ → Result Data
  unfolding rns_addr Name.new sign_opt Envelope.new
  chunk_packet idx chunk_bytes = do
    addr ← rns_addr name
    chunk_name ←
        Name.new addr (drop 1 name.components ++ (chunk_label idx ∷ []))
          (some (blake2b chunk_bytes))
    sign_opt blake2b signer now (with_sequence (Envelope.new blake2b chunk_name chunk_bytes) idx)

  -- the `while` loop, at `content[offset:]`
  unfoldable pub chunk_loop : ℕ → ℕ → ℕ → List ℕ → Result (List (ChunkRef × Data))
  unfolding chunk_packet
  chunk_loop zero chunk_size idx [] = ok []
  chunk_loop zero chunk_size idx (b ∷ bs) = raise out_of_fuel
  chunk_loop (suc fuel) chunk_size idx [] = ok []
  chunk_loop (suc fuel) chunk_size idx (b ∷ bs) = do
    packet ← chunk_packet idx (take chunk_size (b ∷ bs))
    rest ← chunk_loop fuel chunk_size (idx + 1) (drop chunk_size (b ∷ bs))
    ok ((chunk_ref idx (take chunk_size (b ∷ bs)), packet) ∷ rest)

  abbrev pub chunk_result : List ℕ → ℕ → List (ChunkRef × Data) → ChunkResult
  chunk_result content sequence cs = record {
    manifest = create now name (map (λ c. c.0) cs) (some (blake2b content)) sequence;
    data_packets = map (λ c. c.1) cs;
  }

  unfoldable pub chunk_content : List ℕ → ℕ → ℕ → Result ChunkResult
  unfolding chunk_loop create
  chunk_content [] chunk_size sequence = raise empty_content
  chunk_content (b ∷ bs) chunk_size sequence = do
    cs ← chunk_loop (length (b ∷ bs)) chunk_size 0 (b ∷ bs)
    ok (chunk_result (b ∷ bs) sequence cs)
