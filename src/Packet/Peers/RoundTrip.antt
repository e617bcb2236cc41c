-- ===== src/Packet/Peers/RoundTrip.antt =====
-- The two handshakes are read back, if they speak the supported version.
use rns_icn.Prelude.{
  ℕ, ◌-◌, ◌<◌, ◌^◌, ◌≡◌, Bool, false, arith, Bool-cases, inl, inr, ltb→lt, lt→ltb, le→ltb-false,
  ltb-false→le, suc,
}
use rns_icn.Prelude.{
  List, [], ◌∷◌, ◌++◌, length, take, drop, replicate, ltb, ◌==◌, nat_eq, append-nil, if◌then◌else◌,
}
use rns_icn.Prelude.{length-append, length-take, length-replicate, take-append, drop-append}
use mathlib.Core.Path.{subst}
use rns_icn.Wire.{ok, raise, unsupported_version, set_flag, has_flag, be_bytes}
use rns_icn.Wire.Numbers.{pack-be_bytes, unpack-be_bytes, length-be_bytes}
use rns_icn.Packet.Peers.{
  PropPeer, CapPeer, pad_addr, write_prop_peer, read_prop_peer, write_cap_peer, read_cap_peer,
}

-- The address on the wire always has 16 bytes, and an address of 16 bytes is not changed.
pub length-pad_addr : (addr : List ℕ) → length (pad_addr addr) ≡ 16
unfolding pad_addr
length-pad_addr addr = elim (Bool-cases (ltb (length addr) 16)) [
  | inl t ↦ rw t (
      omega (
        arith,
        length-take 16 (addr ++ replicate (16 - length addr) 0),
        length-append addr (replicate (16 - length addr) 0),
        length-replicate {A = ℕ} (16 - length addr) 0,
        ltb→lt (length addr) 16 t,
      ))
  | inr t ↦ rw t (omega (arith, length-take 16 addr, ltb-false→le (length addr) 16 t))
]

take_self {ℓ} : {A : Type ℓ} (n : ℕ) (xs : List A) → length xs ≡ n → take n xs ≡ xs
take_self n xs h =
    subst (λ (m : ℕ). take m xs ≡ xs) h
      (subst (λ ys. take (length xs) ys ≡ xs) (append-nil xs) (take-append xs []))

pub pad_addr_lem : (addr : List ℕ) → length addr ≡ 16 → pad_addr addr ≡ addr
unfolding pad_addr
pad_addr_lem addr h = ground (arith, take_self 16 addr h)

take_front : (n : ℕ) (xs ys : List ℕ) → length xs ≡ n → take n (xs ++ ys) ≡ xs
take_front n xs ys h = subst (λ (m : ℕ). take m (xs ++ ys) ≡ xs) h (take-append xs ys)

drop_front : (n : ℕ) (xs ys : List ℕ) → length xs ≡ n → drop n (xs ++ ys) ≡ ys
drop_front n xs ys h = subst (λ (m : ℕ). drop m (xs ++ ys) ≡ ys) h (drop-append xs ys)

flag_lem : (b : Bool) → has_flag (set_flag b 0x01 0) 0x01 ≡ b
unfolding has_flag set_flag
flag_lem b = ground arith

long_enough :
    (bs : List ℕ) (last : ℕ)
    → length bs ≡ 16
    → ltb (suc (suc (length (bs ++ (last ∷ []))))) 19 ≡ false
long_enough bs last h = le→ltb-false _ 19 (omega (arith, length-append bs (last ∷ [])))

-- A propagation handshake with a version below 256 is written without an error. It is read back
-- if its version is 1, with its address cut or zero-filled to 16 bytes, and is refused as an
-- unsupported version otherwise.
pub read_prop_peer-write_prop_peer :
    (p : PropPeer)
    → p.version < 256
    → (bs : List ℕ) × (write_prop_peer p ≡ ok bs)
      × (read_prop_peer bs ≡ (
          if p.version == 1
          then ok (record p { rns_addr = pad_addr p.rns_addr })
          else raise unsupported_version))
unfolding write_prop_peer read_prop_peer
read_prop_peer-write_prop_peer p h =
    let addr = pad_addr p.rns_addr in
    let flags = set_flag p.wants_sync 0x01 0 in
    let tail : List ℕ = flags ∷ [] in
    let size = length-pad_addr p.rns_addr in
    (
      4 ∷ p.version ∷ addr ++ tail,
      rw (lt→ltb p.version 256 h),
      rw (long_enough addr flags size) (elim (Bool-cases (p.version == 1)) [
        | inl e ↦
            rw
              (e, drop_front 16 addr tail size, take_front 16 addr tail size, flag_lem p.wants_sync)
        | inr e ↦ rw e
      ]),
    )

-- The same of the capability handshake, whose role is below 256 and whose feature mask fits 32
-- bits; nothing of it is changed.
pub read_cap_peer-write_cap_peer :
    (c : CapPeer)
    → c.version < 256
    → c.role < 256
    → c.features < 2 ^ 32
    → (bs : List ℕ) × (write_cap_peer c ≡ ok bs)
      × (read_cap_peer bs ≡ (if c.version == 1 then ok c else raise unsupported_version))
unfolding write_cap_peer read_cap_peer
read_cap_peer-write_cap_peer c hv hr hf =
    let features = be_bytes 4 c.features in
    let size = length-be_bytes 4 c.features in
    (
      5 ∷ c.version ∷ c.role ∷ features,
      rw (pack-be_bytes 4 c.features (omega arith)) (ground arith),
      rw (length-be_bytes 4 c.features) (elim (Bool-cases (c.version == 1)) [
        | inl e ↦ rw (e, take_self 4 features size, unpack-be_bytes 4 c.features (omega arith))
        | inr e ↦ rw e
      ]),
    )
