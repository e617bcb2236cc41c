-- ===== src/Wire/Readers.antt =====
-- What the readers give on a buffer that begins with what they look for.
use rns_icn.Prelude.{ℕ, ◌^◌, ◌<◌, ◌≡◌, refl, arith, nat_eq}
use rns_icn.Prelude.{
  List, [], ◌++◌, length, length-append, take-append, drop-append, is_some, Option, none, some, leb,
  leb→le, Bool-cases, inl, inr, sym, All, All-parts, take-append-drop, length-take, append-nil,
}
use rns_icn.Wire.{
  be_bytes, pack, Encodes, write_opt, read_if, Error, Result, ok, raise, ◌>>=◌, slice, read_be,
  IsByte, IfOk,
}
use mathlib.Core.Path.{subst}
use rns_icn.Wire.Numbers.{length-be_bytes, pack-be_bytes, unpack-be_bytes}

pub slice-append :
    (e : Error) {n : ℕ} (xs ys : List ℕ) → length xs ≡ n → slice e n (xs ++ ys) ≡ ok (xs, ys)
unfolding slice
slice-append e xs ys h =
    rw (← h) (ground (arith, length-append xs ys, take-append xs ys, drop-append xs ys))

pub read_be-append :
    (e : Error) (w v : ℕ) (rest : List ℕ)
    → v < 256 ^ w
    → read_be e w (be_bytes w v ++ rest) ≡ ok (v, rest)
unfolding read_be
read_be-append e w v rest h =
    rw (slice-append e (be_bytes w v) rest (length-be_bytes w v), unpack-be_bytes w v h)

pub slice_self : (e : Error) {n : ℕ} (xs : List ℕ) → length xs ≡ n → slice e n xs ≡ ok (xs, [])
slice_self e {n} xs h =
    subst (λ ys. slice e n ys ≡ ok (xs, [])) (append-nil xs) (slice-append e xs [] h)

pub slice-raise : (e : Error) (n : ℕ) (bs : List ℕ) → length bs < n → slice e n bs ≡ raise e
unfolding slice
slice-raise e n bs h = ground arith

-- The rule of a bind, and the rules of the readers.
pub >>=-IfOk {ℓ κ μ} :
    {A : Type ℓ} {B : Type κ} {P : A → Type μ} (Q : B → Type μ) (m : Result A) (f : A → Result B)
    → IfOk P m
    → ((a : A) → P a → IfOk Q (f a))
    → IfOk Q (m >>= f)
>>=-IfOk Q (ok a) f p k = k a p
>>=-IfOk Q (raise e) f p k = tt

-- The rule of a bind, with the equation of its first part.
pub >>=-IfOk_eq {ℓ κ μ} :
    {A : Type ℓ} {B : Type κ} (Q : B → Type μ) (m : Result A) (f : A → Result B)
    → ((a : A) → m ≡ ok a → IfOk Q (f a))
    → IfOk Q (m >>= f)
>>=-IfOk_eq Q (ok a) f k = k a refl
>>=-IfOk_eq Q (raise e) f k = tt

-- What holds of both branches of a split on a result.
pub Result-ind {ℓ κ μ} :
    {A : Type ℓ} {B : Type κ} (P : B → Type μ) (r : Result A) (f : A → B) (g : Error → B)
    → ((a : A) → r ≡ ok a → P (f a))
    → ((e : Error) → r ≡ raise e → P (g e))
    → P (elim r [ ok a ↦ f a | raise e ↦ g e ])
Result-ind P (ok a) f g p q = p a refl
Result-ind P (raise e) f g p q = q e refl

pub IfOk-map {ℓ κ μ} :
    {A : Type ℓ} {P : A → Type κ} (Q : A → Type μ) (r : Result A)
    → IfOk P r
    → ((a : A) → P a → Q a)
    → IfOk Q r
IfOk-map Q (ok a) h k = k a h
IfOk-map Q (raise e) h k = tt

pub IfOk-true {ℓ} : {A : Type ℓ} (r : Result A) → IfOk (λ a. Unit {0}) r
IfOk-true (ok a) = tt
IfOk-true (raise e) = tt

pub IfOk-eq {ℓ κ} : {A : Type ℓ} (P : A → Type κ) {r : Result A} {a : A} → r ≡ ok a → IfOk P r → P a
IfOk-eq P e h = rw e at h

-- The bytes that were taken, and what is left of the buffer.
abbrev pub Cut : List ℕ → List ℕ × List ℕ → Type 0
Cut bs (xs, rest) = bs ≡ xs ++ rest

abbrev pub CutAt : ℕ → List ℕ → List ℕ × List ℕ → Type 0
CutAt n bs (xs, rest) = (bs ≡ xs ++ rest) × (length xs ≡ n)

pub slice-CutAt : (e : Error) (n : ℕ) (bs : List ℕ) → IfOk (CutAt n bs) (slice e n bs)
unfolding slice
slice-CutAt e n bs = elim (Bool-cases (leb n (length bs))) [
  | inl t ↦
      rw t (sym (take-append-drop n bs), omega (arith, length-take n bs, leb→le n (length bs) t))
  | inr t ↦ rw t tt
]

-- Both parts of a byte string are byte strings.
pub IsByte-parts :
    {bs : List ℕ} (xs ys : List ℕ) → bs ≡ xs ++ ys → All IsByte bs → All IsByte xs × All IsByte ys
IsByte-parts xs ys e h = All-parts IsByte xs ys (rw e at h)

-- An optional field is read back under the flag that says whether it is there.
pub optional_lem {ℓ} :
    {A : Type ℓ} (write : A → Result (List ℕ)) (read : List ℕ → Result (A × List ℕ)) (o : Option A)
    → ((a : A) → o ≡ some a → Encodes (write a) read a)
    → Encodes (write_opt write o) (read_if (is_some o) read) o
unfolding write_opt read_if
optional_lem write read none h = ([], refl, λ rest. refl)
optional_lem write read (some a) h =
    let (w, written, back) = h a refl in (w, written, λ rest. rw (back rest))

pub number_lem : (e : Error) (w v : ℕ) → v < 256 ^ w → Encodes (pack w v) (read_be e w) v
number_lem e w v h = (be_bytes w v, pack-be_bytes w v h, λ rest. read_be-append e w v rest h)

-- The same where nothing follows.
pub read-end {ℓ} :
    {A : Type ℓ} (read : List ℕ → Result (A × List ℕ)) (a : A) (w : List ℕ)
    → ((rest : List ℕ) → read (w ++ rest) ≡ ok (a, rest))
    → read w ≡ ok (a, [])
read-end read a w back = subst (λ bs. read bs ≡ ok (a, [])) (append-nil w) (back [])
