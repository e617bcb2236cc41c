-- ===== src/Name/Canonical.antt =====
-- What `Name.from_bytes` accepts is what `Name.to_bytes` writes, and bytes that it does not read.
use rns_icn.Prelude.{ℕ, zero, suc, ◌≤◌, ◌<◌, ◌≡◌, refl, ap, Option, arith}
use rns_icn.Prelude.{
  List, [], ◌∷◌, ◌++◌, length, All, ltb, ◌==◌, nat_eq, append_assoc, Bool-cases, inl, inr,
  nat_beq_iff, ◌||◌,
}
use rns_icn.Wire.{ok, name_error, slice, IsByte, IfOk}
use rns_icn.Wire.Readers.{slice-CutAt, >>=-IfOk, IfOk-eq, IsByte-parts}
use rns_icn.Name
use rns_icn.Name.{
  Name, IsHash, IsWire, read_components, read_content_hash, write_components, write_content_hash,
}

-- The components read are written as the bytes that were read.
abbrev ReadBack : ℕ → List ℕ → List (List ℕ) × List ℕ → Type 0
ReadBack count bs (cs, rest) =
    (w : List ℕ) × (write_components cs ≡ ok w)
    × (bs ≡ w ++ rest)
    × (length cs ≡ count)
    × All (λ c. length c ≤ 255) cs

write_components_cons :
    (c : List ℕ) (cs : List (List ℕ)) {w : List ℕ}
    → length c < 256
    → write_components cs ≡ ok w
    → write_components (c ∷ cs) ≡ ok (length c ∷ c ++ w)
unfolding write_components
write_components_cons c cs h e = ground arith

read_components-ReadBack :
    (count : ℕ) (bs : List ℕ) → All IsByte bs → IfOk (ReadBack count bs) (read_components count bs)
unfolding read_components
read_components-ReadBack zero bs b = ([], unfold write_components in refl, refl, refl, tt)
read_components-ReadBack (suc count) [] b = tt
read_components-ReadBack (suc count) (clen ∷ bs) (hl, b) =
    >>=-IfOk (ReadBack (suc count) (clen ∷ bs)) (slice name_error clen bs) _
      (slice-CutAt name_error clen bs)
      λ (c, after) (cut, size).
        >>=-IfOk _ (read_components count after) _
          (read_components-ReadBack count after (IsByte-parts c after cut b).1)
          λ (cs, rest) (w, written, e, n, short). (
            length c ∷ c ++ w,
            write_components_cons c cs (omega arith) written,
            rw (size, cut, e, append_assoc),
            ap suc n,
            (omega arith, short),
          )

-- The same of the content hash.
abbrev HashBack : List ℕ → Option (List ℕ) → Type 0
HashBack bs h = IsHash h × ((rest : List ℕ) × (bs ≡ write_content_hash h ++ rest))

read_content_hash-HashBack : (bs : List ℕ) → IfOk (HashBack bs) (read_content_hash bs)
unfolding read_content_hash write_content_hash
read_content_hash-HashBack [] = (tt, ([], refl))
read_content_hash-HashBack (b ∷ bs) = elim (Bool-cases (b == 0xff)) [
  | inl t ↦ rw t (
      >>=-IfOk (HashBack (b ∷ bs)) (slice name_error 32 bs) _ (slice-CutAt name_error 32 bs)
        λ (h, rest) (cut, size). (size, (rest, rw ((nat_beq_iff b 0xff).0 t, cut))))
  | inr t ↦ rw t (tt, (b ∷ bs, refl))
]

-- A name that was read has the shape of the wire, and is written as a front part of the buffer.
abbrev Prints : List ℕ → Name → Type 0
Prints bs n = IsWire n × ((w rest : List ℕ) × (Name.to_bytes n ≡ ok w) × (bs ≡ w ++ rest))

to_bytes-parts :
    (n : Name) {w : List ℕ}
    → length n.components < 256
    → write_components n.components ≡ ok w
    → Name.to_bytes n ≡ ok (length n.components ∷ w ++ write_content_hash n.content_hash)
unfolding Name.to_bytes
to_bytes-parts n h e = rw e (ground arith)

from_bytes-Prints : (bs : List ℕ) → All IsByte bs → IfOk (Prints bs) (Name.from_bytes bs)
unfolding Name.from_bytes
from_bytes-Prints [] b = tt
from_bytes-Prints (count ∷ bs) (hc, b) = elim (Bool-cases ((count == 0) || ltb 32 count)) [
  | inl t ↦ rw t tt
  | inr t ↦ rw t (
      >>=-IfOk _ (read_components count bs) _ (read_components-ReadBack count bs b)
        λ (cs, after) (w, written, cut, size, short).
          >>=-IfOk _ (read_content_hash after) _ (read_content_hash-HashBack after)
            λ h (hash, (rest, tail)). (
              record {
                some_component = ground arith;
                few_components = ground arith;
                short_components = short;
                hash_size = hash;
              },
              (
                length cs ∷ w ++ write_content_hash h,
                rest,
                to_bytes-parts (record { components = cs; content_hash = h }) (omega arith) written,
                rw (size, cut, tail, append_assoc),
              ),
            ))
]

-- If `from_bytes` accepts a byte string, then the name that it returns has 1 to 32 components of
-- at most 255 bytes and a content hash of 32 bytes if any, and `to_bytes` writes that name as a
-- front part of the byte string: what is read beyond it is ignored.
pub to_bytes-from_bytes :
    (bs : List ℕ) (n : Name)
    → All IsByte bs
    → Name.from_bytes bs ≡ ok n
    → IsWire n × ((w rest : List ℕ) × (Name.to_bytes n ≡ ok w) × (bs ≡ w ++ rest))
to_bytes-from_bytes bs n b e = IfOk-eq (Prints bs) e (from_bytes-Prints bs b)
