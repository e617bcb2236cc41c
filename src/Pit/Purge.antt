-- ===== src/Pit/Purge.antt =====
-- What `purge_expired` removes and what it leaves.
use rns_icn.Prelude.{ℕ, ◌≡◌, ◌≢◌, refl, sym, not, arith}
use rns_icn.Prelude.{
  List, [], ◌∷◌, map, filter, All, ltb, nat_eq, list_eq, pair_eq, Bool-cases, inl, inr, eq_refl,
}
use rns_icn.Prelude.{Dict, get, erase, Fresh, Distinct}
use rns_icn.Name.{Name, name_eq, name_beq_iff}
use rns_icn.Pit.{Pit, PitEntry, is_expired, pop_all, purge_expired}

abbrev keys : Dict Name PitEntry → List Name
keys = map (λ e. e.0)

abbrev pub values : Dict Name PitEntry → List PitEntry
values = map (λ e. e.1)

abbrev pub expired : ℕ → Dict Name PitEntry → Dict Name PitEntry
expired now = filter (is_expired now)

abbrev pub live : ℕ → Dict Name PitEntry → Dict Name PitEntry
live now = filter (λ e. not (is_expired now e))

-- A pair whose name is not popped stays in front.
pop_all_skip :
    (names : List Name) (k : Name) (v : PitEntry) (d : Dict Name PitEntry)
    → All (λ n. k ≢ n) names
    → pop_all names ((k, v) ∷ d) ≡ ((pop_all names d).0, (k, v) ∷ (pop_all names d).1)
unfolding pop_all get erase
pop_all_skip [] k v d h = refl
pop_all_skip (n ∷ names) k v d (hn, h) =
    ground (arith, name_beq_iff k n, pop_all_skip names k v (erase n d) h)

Fresh-keys :
    (now : ℕ) (k : Name) (d : Dict Name PitEntry)
    → Fresh k d
    → All (λ n. k ≢ n) (keys (expired now d))
Fresh-keys now k [] h = tt
Fresh-keys now k (x ∷ d) (hx, h) = elim (Bool-cases (is_expired now x)) [
  | inl t ↦ rw t (λ p. hx (sym p), Fresh-keys now k d h)
  | inr t ↦ rw t (Fresh-keys now k d h)
]

pop_all-expired :
    (now : ℕ) (d : Dict Name PitEntry)
    → Distinct d
    → pop_all (keys (expired now d)) d ≡ (values (expired now d), live now d)
unfolding pop_all get erase
pop_all-expired now [] h = refl
pop_all-expired now ((k, v) ∷ d) (fresh, h) = elim (Bool-cases (is_expired now (k, v))) [
  | inl t ↦ rw (t, eq_refl k, pop_all-expired now d h)
  | inr t ↦ rw (
    t,
    pop_all_skip (keys (expired now d)) k v d (Fresh-keys now k d fresh),
    pop_all-expired now d h,
  )
]

-- In a table with distinct names `purge_expired` returns the entries that are satisfied or whose
-- time has come, in the order of the table, and leaves the others, in their order; of the nonces
-- it leaves those whose time is still to come.
pub purge_expired_lem :
    (now : ℕ) (p : Pit)
    → Distinct p.entries
    → purge_expired now p ≡ (
      record p {
        entries = live now p.entries;
        nonce_tracker = filter (λ e. ltb now e.1) p.nonce_tracker;
      },
      values (expired now p.entries),
    )
unfolding purge_expired
purge_expired_lem now p h = rw (pop_all-expired now p.entries h)
