-- ===== src/Aps/Subscriptions.antt =====
-- What each change does to who is subscribed.
use rns_icn.Prelude.{◌≡◌, refl, ◌∙◌, ◌&&◌, ◌||◌, not, arith, inl, inr}
use rns_icn.Prelude.{List, [], ◌∷◌, ◌==◌, nat_eq, nat_beq_iff, Bool-cases}
use rns_icn.Prelude.{get, put}
use rns_icn.Name.{Name, name_eq, name_beq_iff}
use rns_icn.Pit.{FaceId, contains, add_face}
use rns_icn.Pit.Behaviour.{contains-add_face}
use rns_icn.Aps.{
  Subscriptions, subscribers, subscribe, discard, keep_stream, unsubscribe_face, matches, update,
  collect, get_subscriber_faces, is_subscribed,
}

contains-update :
    (result fs : List FaceId) (f : FaceId)
    → contains (update result fs) f ≡ (contains result f || contains fs f)
unfolding update contains
contains-update result [] f = ground arith
contains-update result (g ∷ fs) f =
    ground (arith, contains-add_face g f result, contains-update (add_face g result) fs f)

contains-collect :
    (name : Name) (result : List FaceId) (subs : Subscriptions) (f : FaceId)
    → contains (collect name result subs) f ≡ (contains result f || is_subscribed name f subs)
unfolding collect is_subscribed
contains-collect name result [] f = ground arith
contains-collect name result ((s, fs) ∷ subs) f = elim (Bool-cases (matches name s)) [
  | inl t ↦
      rw t (
        ground
          (arith, contains-update result fs f, contains-collect name (update result fs) subs f))
  | inr t ↦ rw t (ground (arith, contains-collect name result subs f))
]

-- A face is among the faces of `get_subscriber_faces` exactly when `is_subscribed` says so.
pub get_subscriber_faces-is_subscribed :
    (name : Name) (f : FaceId) (subs : Subscriptions)
    → contains (get_subscriber_faces name subs) f ≡ is_subscribed name f subs
unfolding get_subscriber_faces contains
get_subscriber_faces-is_subscribed name f subs = contains-collect name [] subs f

is_subscribed-put :
    (name n : Name) (f : FaceId) (fs : List FaceId) (subs : Subscriptions)
    → ((g : FaceId) → contains fs g ≡ (contains (subscribers n subs) g || f == g))
    → (g : FaceId)
    → is_subscribed name g (put n fs subs)
      ≡ (is_subscribed name g subs || (f == g && matches name n))
unfolding is_subscribed put get contains
is_subscribed-put name n f fs [] h g = ground (arith, h g)
is_subscribed-put name n f fs ((m, gs) ∷ subs) h g = elim (Bool-cases (m == n)) [
  | inl t ↦ ground (arith, name_beq_iff m n, h g)
  | inr t ↦ rw t (ground (arith, is_subscribed-put name n f fs subs (rw t at h) g))
]

-- After `subscribe` exactly one pair more is subscribed: the face, to each name that matches the
-- stream.
pub is_subscribed-subscribe :
    (name n : Name) (f g : FaceId) (subs : Subscriptions)
    → is_subscribed name g (subscribe n f subs)
      ≡ (is_subscribed name g subs || (f == g && matches name n))
unfolding subscribe
is_subscribed-subscribe name n f g subs =
    is_subscribed-put name n f (add_face f (subscribers n subs)) subs
      (λ g. contains-add_face f g (subscribers n subs)) g

pub contains-discard :
    (f : FaceId) (fs : List FaceId) (g : FaceId)
    → contains (discard f fs) g ≡ (contains fs g && not (f == g))
unfolding contains discard
contains-discard f [] g = refl
contains-discard f (h ∷ fs) g =
    ground (arith, nat_beq_iff h f, nat_beq_iff h g, nat_beq_iff f g, contains-discard f fs g)

is_subscribed-keep_stream :
    (name s : Name) (fs : List FaceId) (subs : Subscriptions) (g : FaceId)
    → is_subscribed name g (keep_stream s fs subs)
      ≡ ((contains fs g && matches name s) || is_subscribed name g subs)
unfolding keep_stream is_subscribed contains
is_subscribed-keep_stream name s [] subs g = refl
is_subscribed-keep_stream name s (f ∷ fs) subs g = refl

-- After `unsubscribe_face` the face is subscribed to nothing, and every other face to what it was.
pub is_subscribed-unsubscribe_face :
    (name : Name) (f g : FaceId) (subs : Subscriptions)
    → is_subscribed name g (unsubscribe_face f subs) ≡ (is_subscribed name g subs && not (f == g))
unfolding unsubscribe_face is_subscribed
is_subscribed-unsubscribe_face name f g [] = refl
is_subscribed-unsubscribe_face name f g ((s, fs) ∷ subs) =
    is_subscribed-keep_stream name s (discard f fs) (unsubscribe_face f subs) g
    ∙ ground (arith, contains-discard f fs g, is_subscribed-unsubscribe_face name f g subs)
