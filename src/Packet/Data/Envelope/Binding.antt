-- ===== src/Packet/Data/Envelope/Binding.antt =====
-- What the signed envelope binds, and what it does not.
use rns_icn.Prelude.{
  ℕ, ◌<◌, ◌^◌, ◌≡◌, ◌≢◌, refl, sym, ap, ◌∙◌, Bool, true, false, Option, none, some, arith,
}
use rns_icn.Prelude.{List, [], ◌∷◌, ◌++◌, length}
use rns_icn.Wire.{ok, be_bytes, write_opt}
use rns_icn.Wire.Numbers.{length-be_bytes, be_value-be_bytes, pack-be_bytes}
use rns_icn.Name
use rns_icn.Name.{Name}
use rns_icn.Packet.Metadata.{DataMetadata}
use rns_icn.Packet.Selector.{FitsU64}
use rns_icn.Packet.Data.{Data}
use rns_icn.Packet.Data.Envelope.{
  data_domain, tagged, encrypted_tag, signed_fields, hash_bytes, signed_bytes,
}

pub append_left_cancel {ℓ} : {A : Type ℓ} (xs : List A) {a b : List A} → xs ++ a ≡ xs ++ b → a ≡ b
append_left_cancel [] e = e
append_left_cancel (x ∷ xs) e = append_left_cancel xs (ground arith)

append_cancel {ℓ} :
    {A : Type ℓ} (xs ys : List A) {a b : List A}
    → length xs ≡ length ys
    → xs ++ a ≡ ys ++ b
    → (xs ≡ ys) × (a ≡ b)
append_cancel [] [] h e = (refl, e)
append_cancel [] (y ∷ ys) h e = absurd (omega arith)
append_cancel (x ∷ xs) [] h e = absurd (omega arith)
append_cancel (x ∷ xs) (y ∷ ys) {a} {b} h e =
    let (p, q) = append_cancel xs ys {a = a} {b = b} (omega arith) (ground arith) in
    (ground arith, q)

be_bytes-injective : (w u v : ℕ) → u < 256 ^ w → v < 256 ^ w → be_bytes w u ≡ be_bytes w v → u ≡ v
be_bytes-injective w u v hu hv e = cc (be_value-be_bytes w u hu, be_value-be_bytes w v hv)

-- The list does not begin with the tag.
abbrev NotTagged : ℕ → List ℕ → Type 0
NotTagged tag [] = Unit
NotTagged tag (x ∷ xs) = x ≢ tag

abbrev field_bytes : ℕ → Option ℕ → List ℕ
field_bytes tag none = []
field_bytes tag (some v) = tag ∷ be_bytes 8 v

field-cancel :
    (tag : ℕ) (a b : Option ℕ) (r s : List ℕ)
    → FitsU64 a
    → FitsU64 b
    → NotTagged tag r
    → NotTagged tag s
    → field_bytes tag a ++ r ≡ field_bytes tag b ++ s
    → (a ≡ b) × (r ≡ s)
field-cancel tag none none r s ha hb hr hs e = (refl, e)
field-cancel tag none (some v) [] s ha hb hr hs e = cc
field-cancel tag none (some v) (x ∷ r) s ha hb hr hs e = absurd (hr (ground arith))
field-cancel tag (some u) none r [] ha hb hr hs e = cc
field-cancel tag (some u) none r (x ∷ s) ha hb hr hs e = absurd (hs (ground arith))
field-cancel tag (some u) (some v) r s ha hb hr hs e =
    let (p, q) =
      append_cancel (be_bytes 8 u) (be_bytes 8 v) {a = r} {b = s}
        (length-be_bytes 8 u ∙ sym (length-be_bytes 8 v)) (ground arith) in
    (ap some (be_bytes-injective 8 u v (ground arith) (ground arith) p), q)

written_field :
    (tag : ℕ) (o : Option ℕ) → FitsU64 o → write_opt (tagged tag) o ≡ ok (field_bytes tag o)
unfolding write_opt tagged
written_field tag none h = refl
written_field tag (some v) h = rw (pack-be_bytes 8 v (ground arith))

encrypted_tag-injective : (a b : Bool) → encrypted_tag a ≡ encrypted_tag b → a ≡ b
unfolding encrypted_tag
encrypted_tag-injective a b e = ground arith

abbrev tail_bytes : DataMetadata → List ℕ
tail_bytes m = field_bytes 1 m.sequence ++ (field_bytes 2 m.signed_at ++ encrypted_tag m.encrypted)

-- The numbers of the metadata that are signed fit 64 bits.
pub record SignedFit (m : DataMetadata) : Type 0 where
  pub sequence_fits : FitsU64 m.sequence
  pub signed_at_fits : FitsU64 m.signed_at

signed_fields-tail_bytes : (m : DataMetadata) → SignedFit m → signed_fields m ≡ ok (tail_bytes m)
unfolding signed_fields
signed_fields-tail_bytes m h =
    rw (written_field 1 m.sequence h.sequence_fits, written_field 2 m.signed_at h.signed_at_fits)

NotTagged-tail : (o : Option ℕ) (b : Bool) → NotTagged 1 (field_bytes 2 o ++ encrypted_tag b)
unfolding encrypted_tag
NotTagged-tail none false = tt
NotTagged-tail none true = omega arith
NotTagged-tail (some v) b = omega arith

NotTagged-encrypted : (b : Bool) → NotTagged 2 (encrypted_tag b)
unfolding encrypted_tag
NotTagged-encrypted false = tt
NotTagged-encrypted true = omega arith

tail_bytes-injective :
    (m n : DataMetadata)
    → SignedFit m
    → SignedFit n
    → tail_bytes m ≡ tail_bytes n
    → (m.sequence ≡ n.sequence) × (m.signed_at ≡ n.signed_at) × (m.encrypted ≡ n.encrypted)
tail_bytes-injective m n h k e =
    let (p, rest) =
      field-cancel 1 m.sequence n.sequence (field_bytes 2 m.signed_at ++ encrypted_tag m.encrypted)
        (field_bytes 2 n.signed_at ++ encrypted_tag n.encrypted) h.sequence_fits k.sequence_fits
        (NotTagged-tail m.signed_at m.encrypted) (NotTagged-tail n.signed_at n.encrypted) e in
    let (q, last) =
      field-cancel 2 m.signed_at n.signed_at (encrypted_tag m.encrypted) (encrypted_tag n.encrypted)
        h.signed_at_fits k.signed_at_fits (NotTagged-encrypted m.encrypted)
        (NotTagged-encrypted n.encrypted) rest in
    (p, q, encrypted_tag-injective m.encrypted n.encrypted last)

signed_bytes_layout :
    (d : Data) {name : List ℕ}
    → SignedFit d.metadata
    → Name.to_bytes d.name ≡ ok name
    → signed_bytes d
      ≡ ok (
          data_domain
          ++ (name ++ (d.content ++ (hash_bytes d.metadata.content_hash ++ tail_bytes d.metadata))))
unfolding signed_bytes
signed_bytes_layout d h written = rw (written, signed_fields-tail_bytes d.metadata h)

pub ok-injective {ℓ} : {A : Type ℓ} {a b : A} → ok a ≡ ok b → a ≡ b
ok-injective e = ground arith

-- Change the metadata of a Data packet, but neither its name nor its content nor its content hash:
-- if the bytes under the signature stay the same, then so do the sequence number, the time of
-- signing and the encrypted flag. The numbers fit 64 bits, and the name can be written.
pub signed_bytes-binds :
    (d : Data) (m : DataMetadata) {name : List ℕ}
    → SignedFit d.metadata
    → SignedFit m
    → Name.to_bytes d.name ≡ ok name
    → m.content_hash ≡ d.metadata.content_hash
    → signed_bytes (record d { metadata = m }) ≡ signed_bytes d
    → (m.sequence ≡ d.metadata.sequence)
      × (m.signed_at ≡ d.metadata.signed_at)
      × (m.encrypted ≡ d.metadata.encrypted)
signed_bytes-binds d m {name} h k written same e =
    let both = ok-injective (
      sym (signed_bytes_layout (record d { metadata = m }) k written)
      ∙ e
      ∙ signed_bytes_layout d h written) in
    tail_bytes-injective m d.metadata k h (
      append_left_cancel (hash_bytes d.metadata.content_hash) (
        append_left_cancel d.content
          (append_left_cancel name (append_left_cancel data_domain (rw same at both)))))
