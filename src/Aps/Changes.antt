-- ===== src/Aps/Changes.antt =====
-- The well-formedness of the subscriptions, and that every change keeps it.
use rns_icn.Prelude.{◌≡◌, ◌≢◌, refl, ap, ◌∙◌, ◌&&◌, not, arith, inl, inr}
use rns_icn.Prelude.{List, [], ◌∷◌, All, if◌then◌else◌, ◌==◌, nat_eq, Bool-cases}
use rns_icn.Prelude.{put, erase, Distinct, Fresh, get-put, get-erase, Distinct-put, Distinct-erase}
use mathlib.Core.List.{foldl}
use rns_icn.Name.{Name, name_eq, name_beq_iff}
use rns_icn.Pit.{FaceId, contains, add_face}
use rns_icn.Aps.{
  Subscriptions, subscribers, subscribe, discard, store, unsubscribe_from, unsubscribe, keep_stream,
  unsubscribe_face,
}
use rns_icn.Aps.Subscriptions.{contains-discard}

-- The names are distinct, and no stream is left with an empty set.
abbrev pub IsValid : Subscriptions → Type 0
IsValid subs = Distinct subs × All (λ e. e.1 ≢ []) subs

All-put :
    (n : Name) (fs : List FaceId) (subs : Subscriptions)
    → fs ≢ []
    → All (λ e. e.1 ≢ []) subs
    → All (λ e. e.1 ≢ []) (put n fs subs)
unfolding put
All-put n fs [] h k = (h, tt)
All-put n fs ((m, gs) ∷ subs) h (kg, k) = elim (Bool-cases (m == n)) [
  | inl t ↦ rw t (h, k)
  | inr t ↦ rw t (kg, All-put n fs subs h k)
]

All-erase :
    (n : Name) (subs : Subscriptions)
    → All (λ e. e.1 ≢ []) subs
    → All (λ e. e.1 ≢ []) (erase n subs)
unfolding erase
All-erase n [] k = tt
All-erase n ((m, gs) ∷ subs) (kg, k) = elim (Bool-cases (m == n)) [
  | inl t ↦ rw t k
  | inr t ↦ rw t (kg, All-erase n subs k)
]

add_face-ne-nil : (f : FaceId) (fs : List FaceId) → add_face f fs ≢ []
unfolding add_face contains
add_face-ne-nil f [] e = cc
add_face-ne-nil f (g ∷ fs) e = elim (Bool-cases (contains (g ∷ fs) f)) [
  | inl t ↦ cc (rw t at e)
  | inr t ↦ cc (rw t at e)
]

pub subscribe-IsValid :
    (n : Name) (f : FaceId) (subs : Subscriptions) → IsValid subs → IsValid (subscribe n f subs)
unfolding subscribe
subscribe-IsValid n f subs (d, k) =
    let fs = add_face f (subscribers n subs) in
    (Distinct-put n fs subs d, All-put n fs subs (add_face-ne-nil f (subscribers n subs)) k)

store-IsValid :
    (n : Name) (fs : List FaceId) (subs : Subscriptions) → IsValid subs → IsValid (store n fs subs)
unfolding store
store-IsValid n [] subs (d, k) = (Distinct-erase n subs d, All-erase n subs k)
store-IsValid n (f ∷ fs) subs (d, k) =
    (Distinct-put n (f ∷ fs) subs d, All-put n (f ∷ fs) subs (λ e. cc) k)

pub unsubscribe-IsValid :
    (n : Name) (f : FaceId) (subs : Subscriptions) → IsValid subs → IsValid (unsubscribe n f subs)
unfolding unsubscribe
unsubscribe-IsValid n f subs h = go (subscribers n subs)
  where
    go : (fs : List FaceId) → IsValid (unsubscribe_from n f fs subs)
    go [] = unfold unsubscribe_from in h
    go (g ∷ fs) = unfold unsubscribe_from in store-IsValid n (discard f (g ∷ fs)) subs h

Fresh-keep_stream :
    (k s : Name) (fs : List FaceId) (subs : Subscriptions)
    → s ≢ k
    → Fresh k subs
    → Fresh k (keep_stream s fs subs)
unfolding keep_stream
Fresh-keep_stream k s [] subs n h = h
Fresh-keep_stream k s (f ∷ fs) subs n h = (n, h)

Fresh-unsubscribe_face :
    (k : Name) (f : FaceId) (subs : Subscriptions)
    → Fresh k subs
    → Fresh k (unsubscribe_face f subs)
unfolding unsubscribe_face
Fresh-unsubscribe_face k f [] h = tt
Fresh-unsubscribe_face k f ((s, fs) ∷ subs) (n, h) =
    Fresh-keep_stream k s (discard f fs) (unsubscribe_face f subs) n
      (Fresh-unsubscribe_face k f subs h)

keep_stream-IsValid :
    (s : Name) (fs : List FaceId) (subs : Subscriptions)
    → Fresh s subs
    → IsValid subs
    → IsValid (keep_stream s fs subs)
unfolding keep_stream
keep_stream-IsValid s [] subs n h = h
keep_stream-IsValid s (f ∷ fs) subs n (d, k) = ((n, d), ((λ e. cc), k))

pub unsubscribe_face-IsValid :
    (f : FaceId) (subs : Subscriptions) → IsValid subs → IsValid (unsubscribe_face f subs)
unfolding unsubscribe_face
unsubscribe_face-IsValid f [] h = h
unsubscribe_face-IsValid f ((s, fs) ∷ subs) ((n, d), (kf, k)) =
    keep_stream-IsValid s (discard f fs) (unsubscribe_face f subs)
      (Fresh-unsubscribe_face s f subs n) (unsubscribe_face-IsValid f subs (d, k))

pub data Change : Type 0 where
  join leave : Name → FaceId → Change
  teardown : FaceId → Change

pub apply : Change → Subscriptions → Subscriptions
apply (join n f) subs = subscribe n f subs
apply (leave n f) subs = unsubscribe n f subs
apply (teardown f) subs = unsubscribe_face f subs

apply-IsValid : (c : Change) (subs : Subscriptions) → IsValid subs → IsValid (apply c subs)
unfolding apply
apply-IsValid (join n f) subs h = subscribe-IsValid n f subs h
apply-IsValid (leave n f) subs h = unsubscribe-IsValid n f subs h
apply-IsValid (teardown f) subs h = unsubscribe_face-IsValid f subs h

-- After any sequence of subscriptions, unsubscriptions and torn-down faces, from an empty manager,
-- the stream names are distinct and no stream is left without a face.
pub subscriptions-IsValid : (cs : List Change) → IsValid (foldl (λ subs c. apply c subs) [] cs)
subscriptions-IsValid cs = keeps cs [] (tt, tt)
  where
    keeps :
        (cs : List Change) (subs : Subscriptions)
        → IsValid subs
        → IsValid (foldl (λ subs c. apply c subs) subs cs)
    keeps [] subs h = h
    keeps (c ∷ cs) subs h = keeps cs (apply c subs) (apply-IsValid c subs h)

subscribers-store :
    (n : Name) (fs : List FaceId) (subs : Subscriptions) (m : Name)
    → Distinct subs
    → subscribers m (store n fs subs) ≡ (if n == m then fs else subscribers m subs)
unfolding store
subscribers-store n [] subs m h = ground (arith, get-erase n m subs h)
subscribers-store n (f ∷ fs) subs m h = ground (arith, get-put n m (f ∷ fs) subs)

-- With distinct names, `unsubscribe` takes one face from the set of one stream; no other pair of a
-- stream and a face changes.
pub subscribers-unsubscribe :
    (n : Name) (f : FaceId) (subs : Subscriptions) (m : Name) (g : FaceId)
    → Distinct subs
    → contains (subscribers m (unsubscribe n f subs)) g
      ≡ (contains (subscribers m subs) g && not (n == m && f == g))
unfolding unsubscribe
subscribers-unsubscribe n f subs m g h = go (subscribers n subs) refl
  where
    go :
        (fs : List FaceId)
        → subscribers n subs ≡ fs
        → contains (subscribers m (unsubscribe_from n f fs subs)) g
          ≡ (contains (subscribers m subs) g && not (n == m && f == g))
    go [] e = unfold unsubscribe_from contains in ground (arith, name_beq_iff n m)
    go (x ∷ fs) e =
        unfold unsubscribe_from in
        ap (λ l. contains l g) (subscribers-store n (discard f (x ∷ fs)) subs m h)
        ∙ ground (arith, name_beq_iff n m, contains-discard f (x ∷ fs) g)
