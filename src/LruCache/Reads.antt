-- ===== src/LruCache/Reads.antt =====
-- What a reader finds after a call of the cache of internal/lrucache/lrucache.go.
use cel_service.Base.Dict.{lookup, lookup-delete}
use cel_service.Base.Int.{ℤ, pos, eqb_ℤ}
use cel_service.Base.Text.{Str, str_eq, str_eq_iff, str_eq_cases}
use cel_service.Base.{
  ◌≡◌, ◌⊎◌, inl, inr, arith, some, List, [], ◌∷◌, length, Option-cases, Bool-cases, if◌then◌else◌,
}
use cel_service.LruCache.Located.{drop_last}
use cel_service.LruCache.Refine.{touch, put_contents, used_contents}

module _ {ℓ} {P : Type ℓ} where
  lookup-touch :
      (id j : Str) (v : P) (es : List (Str × P))
      → lookup j (touch id v es) ≡ (if str_eq id j then some v else lookup j es)
  unfolding touch lookup
  lookup-touch id j v es = ground (arith, lookup-delete id j es)

  -- A use of an entry changes nothing that can be read.
  pub lookup-used_contents :
      (id j : Str) (es : List (Str × P)) → lookup j (used_contents id es) ≡ lookup j es
  unfolding used_contents
  lookup-used_contents id j es = elim (Option-cases (lookup id es)) [
    | inl miss ↦ rw (miss, used_contents)
    | inr (v, hit) ↦
        rw (hit, used_contents) (ground (arith, lookup-touch id j v es, str_eq_iff id j))
  ]

  lookup-drop_last :
      (j : Str) (v : P) (es : List (Str × P))
      → lookup j (drop_last es) ≡ some v
      → lookup j es ≡ some v
  unfolding lookup drop_last
  lookup-drop_last j v [] e = e
  lookup-drop_last j v (x ∷ []) e = cc
  lookup-drop_last j v (x ∷ y ∷ es) e = ground (arith, lookup-drop_last j v (y ∷ es))

  -- What can be read after a `Put` is what was put, or could be read before.
  pub lookup-put_contents :
      (capacity : ℤ) (id j : Str) (v w : P) (es : List (Str × P))
      → lookup j (put_contents capacity id v es) ≡ some w
      → (id ≡ j) × (v ≡ w) ⊎ (lookup j es ≡ some w)
  unfolding put_contents lookup
  lookup-put_contents capacity id j v w es e = elim (Option-cases (lookup id es)) [
    | inl miss ↦ elim (Bool-cases (eqb_ℤ (pos (length es)) capacity)) [
      | inl full ↦
          miss_case (drop_last es) (rw (miss, put_contents, full) at e) (lookup-drop_last j w es)
      | inr free ↦ miss_case es (rw (miss, put_contents, free) at e) (λ h. h)
    ]
    | inr (u, hit) ↦
        let h : lookup j (touch id v es) ≡ some w = rw (hit, put_contents) at e in
        ground (arith, lookup-touch id j v es, str_eq_iff id j)
  ]
    where
      miss_case :
          (fs : List (Str × P))
          → lookup j ((id, v) ∷ fs) ≡ some w
          → (lookup j fs ≡ some w → lookup j es ≡ some w)
          → (id ≡ j) × (v ≡ w) ⊎ (lookup j es ≡ some w)
      miss_case fs h k = elim (str_eq_cases id j) [
        | inl (same, test) ↦ inl (same, ground arith)
        | inr (other, test) ↦ inr (k (ground arith))
      ]

  -- What was put can be read.
  pub lookup-put_contents_self :
      (capacity : ℤ) (id : Str) (v : P) (es : List (Str × P))
      → lookup id (put_contents capacity id v es) ≡ some v
  unfolding put_contents lookup touch
  lookup-put_contents_self capacity id v es = elim (Option-cases (lookup id es)) [
    | inl miss ↦ rw (miss, put_contents) (ground (arith, str_eq_iff id id))
    | inr (u, hit) ↦ rw (hit, put_contents) (ground (arith, str_eq_iff id id))
  ]
