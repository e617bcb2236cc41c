-- ===== src/Wire/Numbers.antt =====
-- `struct.pack` and `struct.unpack` are inverse on numbers that fit the width.
use rns_icn.Prelude.{ℕ, zero, suc, ◌+◌, ◌*◌, ◌/◌, ◌%◌, ◌^◌, ◌<◌, ◌≤◌, ◌≡◌, refl, ◌∙◌, arith, nat_eq}
use rns_icn.Prelude.{List, [], ◌∷◌, ◌++◌, length, length-append, All, All-append}
use rns_icn.Wire.{be_bytes, be_value_from, be_value, pack, unpack, ok, raise, struct_error, IsByte}
use native.Mathlib.Nat.{pow-suc}

pub length-be_bytes : (w v : ℕ) → length (be_bytes w v) ≡ w
unfolding be_bytes
length-be_bytes zero v = refl
length-be_bytes (suc w) v =
    omega
      (arith, length-append (be_bytes w (v / 256)) ((v % 256) ∷ []), length-be_bytes w (v / 256))

be_value_from-append :
    (acc b : ℕ) (bs : List ℕ) → be_value_from acc (bs ++ (b ∷ [])) ≡ be_value_from acc bs * 256 + b
unfolding be_value_from
be_value_from-append acc b [] = refl
be_value_from-append acc b (c ∷ bs) = be_value_from-append (acc * 256 + c) b bs

pub be_value-be_bytes : (w v : ℕ) → v < 256 ^ w → be_value (be_bytes w v) ≡ v
unfolding be_value be_bytes
be_value-be_bytes zero v h = unfold be_value_from in omega arith
be_value-be_bytes (suc w) v h =
    be_value_from-append 0 (v % 256) (be_bytes w (v / 256))
    ∙ omega (arith, be_value-be_bytes w (v / 256) (omega (arith, pow-suc 256 w)))

pub be_bytes-IsByte : (w v : ℕ) → All IsByte (be_bytes w v)
unfolding be_bytes
be_bytes-IsByte zero v = tt
be_bytes-IsByte (suc w) v =
    All-append IsByte (be_bytes w (v / 256)) _ (be_bytes-IsByte w (v / 256)) (omega arith)

pub pack-be_bytes : (w v : ℕ) → v < 256 ^ w → pack w v ≡ ok (be_bytes w v)
unfolding pack
pack-be_bytes w v h = ground arith

pub pack-raise : (w v : ℕ) → 256 ^ w ≤ v → pack w v ≡ raise struct_error
unfolding pack
pack-raise w v h = ground arith

pub unpack-be_bytes : (w v : ℕ) → v < 256 ^ w → unpack w (be_bytes w v) ≡ ok v
unfolding unpack
unpack-be_bytes w v h = ground (arith, length-be_bytes w v, be_value-be_bytes w v h)
