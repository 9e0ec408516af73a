-- ===== src/LruCache/History.antt =====
-- The order of eviction of internal/lrucache/lrucache.go, against a history that forgets nothing.
use cel_service.Base.Dict.{lookup, delete, Distinct, delete_absent, lookup-delete, Distinct-delete}
use cel_service.Base.Int.{pos, pos_part, eqb_ℤ, eqb_ℤ_iff}
use cel_service.Base.Text.{Str, str_eq_iff}
use cel_service.Base.{
  ℕ, zero, suc, ◌≡◌, ◌≢◌, refl, ap, arith, none, some, List, [], ◌∷◌, length, take, sym, ◌∙◌,
  Option-cases, Bool-cases, inl, inr, map, returns,
}
use cel_service.LruCache.Located.{drop_last}
use cel_service.LruCache.Runs.{Method, put_it, get_it, run, run_contents, run-new}
use cel_service.LruCache.{LruCache, new}
use mathlib.Core.Bool.{false≢true}
use cel_service.LruCache.Refine.{contents, touch, put_contents, used_contents}

module _ {ℓ} {P : Type ℓ} where
  lookup-take-none :
      (k : Str) (n : ℕ) (h : List (Str × P)) → lookup k h ≡ none → lookup k (take n h) ≡ none
  unfolding lookup
  lookup-take-none k zero h e = refl
  lookup-take-none k (suc n) [] e = refl
  lookup-take-none k (suc n) ((j, v) ∷ h) e = ground (arith, lookup-take-none k n h)

  -- Deleting a key that is among the first entries lets one more entry in.
  delete-take_hit :
      (k : Str) (v : P) (n : ℕ) (h : List (Str × P))
      → Distinct h
      → lookup k (take (suc n) h) ≡ some v
      → delete k (take (suc n) h) ≡ take n (delete k h)
  unfolding lookup delete
  delete-take_hit k v n [] d e = cc
  delete-take_hit k v zero ((j, w) ∷ h) (f, d) e = ground (arith, str_eq_iff j k)
  delete-take_hit k v (suc n) ((j, w) ∷ h) (f, d) e = ground (
    arith,
    str_eq_iff j k,
    delete-take_hit k v n h d,
    delete_absent k h,
    delete_absent k (take (suc n) h),
    lookup-take-none k (suc n) h,
  )

  take-delete_miss :
      (k : Str) (n : ℕ) (h : List (Str × P))
      → lookup k (take (suc n) h) ≡ none
      → take n (delete k h) ≡ take n h
  unfolding lookup delete
  take-delete_miss k zero h e = refl
  take-delete_miss k (suc n) [] e = refl
  take-delete_miss k (suc n) ((j, w) ∷ h) e = ground (arith, take-delete_miss k n h)

  drop_last-take :
      (n : ℕ) (h : List (Str × P))
      → length (take (suc n) h) ≡ suc n
      → drop_last (take (suc n) h) ≡ take n h
  unfolding drop_last
  drop_last-take n [] e = absurd (omega arith)
  drop_last-take zero (x ∷ h) e = refl
  drop_last-take (suc n) (x ∷ []) e = absurd (omega arith)
  drop_last-take (suc n) (x ∷ y ∷ h) e = ap (◌∷◌ x) (drop_last-take n (y ∷ h) (omega arith))

  take_short :
      (n : ℕ) (h : List (Str × P)) → length (take (suc n) h) ≢ suc n → take (suc n) h ≡ take n h
  take_short zero [] e = refl
  take_short (suc n) [] e = refl
  take_short zero (x ∷ h) e = absurd (omega arith)
  take_short (suc n) (x ∷ h) e = ap (◌∷◌ x) (take_short n h (omega arith))

  touch-Distinct : (k : Str) (v : P) (h : List (Str × P)) → Distinct h → Distinct (touch k v h)
  unfolding touch
  touch-Distinct k v h d =
      (ground (arith, lookup-delete k k h, str_eq_iff k k), Distinct-delete k h d)

  put-window :
      (k : Str) (v : P) (n : ℕ) (h : List (Str × P))
      → Distinct h
      → put_contents (pos (suc n)) k v (take (suc n) h) ≡ take (suc n) (touch k v h)
  unfolding put_contents touch
  put-window k v n h d = elim (Option-cases (lookup k (take (suc n) h))) [
    | inl miss ↦ elim (Bool-cases (eqb_ℤ (pos (length (take (suc n) h))) (pos (suc n)))) [
      | inl full ↦
          let count : length (take (suc n) h) ≡ suc n =
            ap pos_part ((eqb_ℤ_iff (pos (length (take (suc n) h))) (pos (suc n))).0 full) in
          rw (miss, put_contents, full)
            (ap (◌∷◌ (k, v)) (drop_last-take n h count ∙ sym (take-delete_miss k n h miss)))
      | inr free ↦
          let short : length (take (suc n) h) ≢ suc n =
            λ e. false≢true (sym free ∙ (eqb_ℤ_iff _ _).1 (ap pos e)) in
          rw (miss, put_contents, free)
            (ap (◌∷◌ (k, v)) (take_short n h short ∙ sym (take-delete_miss k n h miss)))
    ]
    | inr (w, hit) ↦ rw (hit, put_contents) (ap (◌∷◌ (k, v)) (delete-take_hit k w n h d hit))
  ]

-- The calls that make use of an entry.
pub data Use {ℓ} (P : Type ℓ) : Type ℓ where
  stored : Str → P → Use P
  read : Str → Use P

pub method {ℓ} : {P : Type ℓ} → Use P → Method P
method (stored k v) = put_it k v
method (read k) = get_it k

module _ {ℓ} {P : Type ℓ} (cap : ℕ) where
  -- The history holds every entry ever stored, the most recently used first. A `Get` is a use if
  -- the key is among the first `cap` entries.
  unfoldable note : List (Str × P) → Use P → List (Str × P)
  note h (stored k v) = touch k v h
  note h (read k) = elim (lookup k (take cap h)) [ some v ↦ touch k v h | none ↦ h ]

  pub history : List (Str × P) → List (Use P) → List (Str × P)
  unfolding note
  history h [] = h
  history h (u ∷ us) = history (note h u) us

module _ {ℓ} {P : Type ℓ} (n : ℕ) where
  note-Distinct : (h : List (Str × P)) (u : Use P) → Distinct h → Distinct (note (suc n) h u)
  unfolding note
  note-Distinct h (stored k v) d = touch-Distinct k v h d
  note-Distinct h (read k) d = elim (Option-cases (lookup k (take (suc n) h))) [
    | inl miss ↦ rw (miss, note) d
    | inr (v, hit) ↦ rw (hit, note) (touch-Distinct k v h d)
  ]

  used-window :
      (k : Str) (h : List (Str × P))
      → Distinct h
      → used_contents k (take (suc n) h) ≡ take (suc n) (note (suc n) h (read k))
  unfolding used_contents note touch
  used-window k h d = elim (Option-cases (lookup k (take (suc n) h))) [
    | inl miss ↦ rw (miss, used_contents, note)
    | inr (v, hit) ↦ rw (hit, used_contents, note) (ap (◌∷◌ (k, v)) (delete-take_hit k v n h d hit))
  ]

  window :
      (us : List (Use P)) (h : List (Str × P))
      → Distinct h
      → (run_contents (pos (suc n)) (map method us) (take (suc n) h)).0
        ≡ take (suc n) (history (suc n) h us)
  unfolding run_contents history method note
  window [] h d = refl
  window (stored k v ∷ us) h d =
      ap (λ es. (run_contents (pos (suc n)) (map method us) es).0) (put-window k v n h d)
      ∙ window us (touch k v h) (touch-Distinct k v h d)
  window (read k ∷ us) h d =
      ap (λ es. (run_contents (pos (suc n)) (map method us) es).0) (used-window k h d)
      ∙ window us (note (suc n) h (read k)) (note-Distinct h (read k) d)

  -- After any `Put`s and `Get`s on a new cache of a positive capacity, it holds exactly the
  -- `capacity` most recently used entries of the history, in this order.
  pub run-history :
      (us : List (Use P))
      → (l : LruCache P) × (run (map method us) (new (pos (suc n)))
          ≡ returns (l, (run_contents (pos (suc n)) (map method us) []).1))
        × (contents l ≡ take (suc n) (history (suc n) [] us))
  run-history us =
      let (l, e, v, holds) = run-new (pos (suc n)) (map method us) (λ z. absurd (ground arith)) in
      (l, e, holds ∙ window us [] tt)
