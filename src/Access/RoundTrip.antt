-- ===== src/Access/RoundTrip.antt =====
-- A capability is read back from its bytes, and its signed bytes name every field.
use rns_icn.Prelude.{
  ℕ, ◌≤◌, ◌<◌, ◌^◌, ◌≡◌, refl, sym, ap, ◌∙◌, Bool, true, false, not, none, is_some, arith, nat_beq,
}
use rns_icn.Prelude.{
  List, [], ◌∷◌, ◌++◌, length, length-append, le→ltb-false, append_assoc, nat_eq, list_eq, eq_refl,
  if◌then◌else◌,
}
use rns_icn.Wire.{ok, access_error, be_bytes, slice, read_if}
use rns_icn.Wire.Numbers.{pack-be_bytes, length-be_bytes}
use rns_icn.Wire.Readers.{slice-append, read_be-append, optional_lem, read-end}
use rns_icn.Name.{IsWire, rns_addr}
use rns_icn.Name.RoundTrip.{name_lem}
use rns_icn.Packet.Data.{signature_bytes}
use rns_icn.Packet.Data.RoundTrip.{IsSignature}
use rns_icn.Packet.Data.Envelope.Binding.{append_left_cancel, ok-injective}
use rns_icn.Access.{
  Capability, cap_domain, body, signed_bytes, to_bytes, read_body, from_bytes, post_init,
}

-- What the wire form of a capability can carry.
pub record Fits (c : Capability) : Type 0 where
  pub producer_size : length c.producer ≡ 16
  pub consumer_size : length c.consumer ≡ 16
  pub prefix_fits : IsWire c.prefix
  pub wrapped_size : length c.wrapped_cek < 2 ^ 16
  pub issued_fits : c.issued_at < 2 ^ 64
  pub expires_fits : c.expires_at < 2 ^ 64

abbrev pub unsigned : Capability → Capability
unsigned c = record c { signature = none }

-- The body is written without an error, and read back up to the signature, whatever follows.
pub body_lem :
    (c : Capability)
    → Fits c
    → (w : List ℕ) × (body c ≡ ok w)
      × (50 ≤ length w)
      × ((rest : List ℕ) → read_body (w ++ rest) ≡ ok (unsigned c, rest))
unfolding body read_body
body_lem c h =
    let (name, written, back, size) = name_lem c.prefix h.prefix_fits in
    let wlen = be_bytes 2 (length c.wrapped_cek) in
    let tail : List ℕ = wlen ++ c.wrapped_cek in
    let named : List ℕ = be_bytes 2 (length name) ++ (name ++ tail) in
    let times : List ℕ = be_bytes 8 c.issued_at ++ (be_bytes 8 c.expires_at ++ named) in
    (
      c.producer ++ (c.consumer ++ times),
      rw (
        written,
        pack-be_bytes 8 c.issued_at (omega (arith, h.issued_fits)),
        pack-be_bytes 8 c.expires_at (omega (arith, h.expires_fits)),
        pack-be_bytes 2 (length name) (omega arith),
        pack-be_bytes 2 (length c.wrapped_cek) (omega (arith, h.wrapped_size)),
      ),
      omega (
        arith,
        length-append c.producer (c.consumer ++ times),
        length-append c.consumer times,
        length-append (be_bytes 8 c.issued_at) (be_bytes 8 c.expires_at ++ named),
        length-append (be_bytes 8 c.expires_at) named,
        length-append (be_bytes 2 (length name)) (name ++ tail),
        length-be_bytes 8 c.issued_at,
        length-be_bytes 8 c.expires_at,
        length-be_bytes 2 (length name),
        h.producer_size,
        h.consumer_size,
      ),
      λ rest. rw (
        append_assoc c.producer (c.consumer ++ times) rest,
        slice-append access_error c.producer ((c.consumer ++ times) ++ rest) h.producer_size,
        append_assoc c.consumer times rest,
        slice-append access_error c.consumer (times ++ rest) h.consumer_size,
        append_assoc (be_bytes 8 c.issued_at) (be_bytes 8 c.expires_at ++ named) rest,
        read_be-append access_error 8 c.issued_at ((be_bytes 8 c.expires_at ++ named) ++ rest)
            (omega (arith, h.issued_fits)),
        append_assoc (be_bytes 8 c.expires_at) named rest,
        read_be-append access_error 8 c.expires_at (named ++ rest) (omega (arith, h.expires_fits)),
        append_assoc (be_bytes 2 (length name)) (name ++ tail) rest,
        read_be-append access_error 2 (length name) ((name ++ tail) ++ rest) (omega arith),
        append_assoc name tail rest,
        slice-append access_error name (tail ++ rest) refl,
        back,
        append_assoc wlen c.wrapped_cek rest,
        read_be-append access_error 2 (length c.wrapped_cek) (c.wrapped_cek ++ rest)
            (omega (arith, h.wrapped_size)),
        slice-append access_error c.wrapped_cek rest refl,
      ),
    )

flag_lem : (b : Bool) → not (nat_beq (if b then 1 else 0) 0) ≡ b
flag_lem true = refl
flag_lem false = refl

-- A capability whose prefix lies in the producer's namespace, with addresses of 16 bytes, numbers
-- of the wire's widths and a signature of 64 bytes if there is one, is written without an error and
-- read back with every field.
pub from_bytes-to_bytes_capability :
    (c : Capability)
    → Fits c
    → IsSignature c.signature
    → rns_addr c.prefix ≡ ok c.producer
    → (bs : List ℕ) × (to_bytes c ≡ ok bs) × (from_bytes bs ≡ ok c)
unfolding to_bytes from_bytes post_init
from_bytes-to_bytes_capability c h sig root =
    let (w, written, long, back) = body_lem c h in
    let (sw, s_written, s_back) =
      optional_lem ok (slice access_error signature_bytes) c.signature
        (λ a e. (a, refl, λ rest. slice-append access_error a rest (rw e at sig))) in
    let flag : ℕ = if is_some c.signature then 1 else 0 in
    (
      w ++ (flag ∷ sw),
      rw (written, s_written),
      rw (
        le→ltb-false (length (w ++ (flag ∷ sw))) 50 (omega (arith, length-append w (flag ∷ sw))),
        back (flag ∷ sw),
        flag_lem (is_some c.signature),
        read-end (read_if (is_some c.signature) (slice access_error signature_bytes)) c.signature sw
            s_back,
        h.producer_size,
        h.consumer_size,
        root,
        eq_refl c.producer,
      ),
    )

-- The signed bytes of a capability determine all its fields but the signature: two capabilities
-- that fit the wire and have the same signed bytes have the same producer, consumer, prefix,
-- wrapped key and validity.
pub signed_bytes-injective :
    (c d : Capability) → Fits c → Fits d → signed_bytes c ≡ signed_bytes d → unsigned c ≡ unsigned d
unfolding signed_bytes
signed_bytes-injective c d hc hd e =
    let (w, written, _, back) = body_lem c hc in
    let (v, v_written, _, v_back) = body_lem d hd in
    let c_signed : signed_bytes c ≡ ok (cap_domain ++ w) = rw written in
    let d_signed : signed_bytes d ≡ ok (cap_domain ++ v) = rw v_written in
    let same = append_left_cancel cap_domain (ok-injective (sym c_signed ∙ (e ∙ d_signed))) in
    let read : ok (unsigned c, []) ≡ ok (unsigned d, []) =
      sym (read-end read_body (unsigned c) w back)
      ∙ (ap read_body same ∙ read-end read_body (unsigned d) v v_back) in
    ap (λ p. p.0) (ok-injective read)
