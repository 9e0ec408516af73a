-- ===== src/LruCache/Ids.antt =====
-- `GetFullIDList` of internal/lrucache/lrucache.go.
use cel_service.Base.Dict.{lookup, Distinct}
use cel_service.Base.Text.{Str, str_eq_iff, str_eq_cases}
use cel_service.Base.{
  ◌≡◌, ◌↔◌, arith, inl, inr, true, none, List, [], ◌∷◌, map, length, length-map, Option-cases,
}
use cel_service.LruCache.Methods.{is_some}
use cel_service.LruCache.Valid.{IsValid}
use cel_service.LruCache.{LruCache, size, has, get_full_id_list}
use mathlib.Core.HLevel.{⊥_prop}
use mathlib.Core.List.{
  Mem, Nodup, not-mem-nil, mem-cons_self, mem-cons_of_mem, Nodup-nil, Nodup-cons,
  eq-or-mem_of_mem-cons,
}
use mathlib.Core.Logic.Or

module _ {ℓ} {V : Type ℓ} where
  abbrev keys_of : List (Str × V) → List Str
  keys_of m = map (λ e. e.0) m

  mem_of_lookup : (k : Str) (m : List (Str × V)) → is_some (lookup k m) ≡ true → Mem k (keys_of m)
  unfolding lookup
  mem_of_lookup k [] h = cc
  mem_of_lookup k ((j, v) ∷ m) h = elim (str_eq_cases j k) [
    | inl (same, test) ↦ rw same mem-cons_self
    | inr (other, test) ↦ mem-cons_of_mem j (mem_of_lookup k m (ground arith))
  ]

  not-mem_of_none : (k : Str) (m : List (Str × V)) → lookup k m ≡ none → ¬ Mem k (keys_of m)
  unfolding lookup
  not-mem_of_none k [] h = not-mem-nil
  not-mem_of_none k ((j, v) ∷ m) h = λ x.
      Or.elim ⊥_prop (eq-or-mem_of_mem-cons x) (λ e. ground (arith, str_eq_iff j k))
        (not-mem_of_none k m (ground arith))

  keys_of-Nodup : (m : List (Str × V)) → Distinct m → Nodup (keys_of m)
  keys_of-Nodup [] d = Nodup-nil
  keys_of-Nodup ((j, v) ∷ m) (f, d) = Nodup-cons.1 (not-mem_of_none j m f, keys_of-Nodup m d)

-- The list holds every identifier that `Has` finds, no other, none twice, and as many as `Size`
-- says.
pub get_full_id_list-has {ℓ} :
    {P : Type ℓ} (l : LruCache P)
    → IsValid l
    → ((id : Str) → (has id l ≡ true) ↔ Mem id (get_full_id_list l))
      × Nodup (get_full_id_list l)
      × (length (get_full_id_list l) ≡ size l)
unfolding get_full_id_list has size
get_full_id_list-has l v = (
  λ id. elim (Option-cases (lookup id l.entries)) [
    | inl e ↦ (λ h. absurd (ground arith), λ x. absurd (not-mem_of_none id l.entries e x))
    | inr (p, e) ↦ (λ h. mem_of_lookup id l.entries (rw e), λ x. ground arith)
  ],
  keys_of-Nodup l.entries v.links.keys,
  length-map _ l.entries,
)
