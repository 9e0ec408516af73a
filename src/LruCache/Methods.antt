-- ===== src/LruCache/Methods.antt =====
-- Each method of internal/lrucache/lrucache.go, on every valid cache.
use cel_service.Base.Dict.{lookup, delete, delete_absent}
use cel_service.Base.Int.{ℤ, pos, negsuc, eqb_ℤ, eqb_ℤ_iff}
use cel_service.Base.Text.{Str}
use cel_service.Base.{
  ℕ, ◌≤◌, ◌≡◌, subst, refl, sym, ◌∙◌, ap, arith, Bool, true, false, Option, none, some, List, [],
  ◌∷◌, length, inl, inr, if◌then◌else◌, Option-cases, returns, panics, ltb,
}
use cel_service.LruCache.Located.{Located}
use cel_service.LruCache.Queue.{view, addr_of, length-view}
use cel_service.LruCache.Refine.{
  contents, touch, used_contents, Becomes, relocate-Becomes, unlink-Becomes,
}
use cel_service.LruCache.Valid.{Fits, IsValid, locate_entry, nil-IsLinked}
use cel_service.LruCache.{
  Element, LruCache, remove_node, move_to_front, back, size, make_room, put, update_access, has,
  get, remove, get_oldest, clear,
}
use cel_service.LruCache.Putting.{miss_contents, moved}

pub Fits-zero : (c : ℤ) → Fits 0 c
Fits-zero (pos k) = omega arith
Fits-zero (negsuc k) = tt

abbrev pub is_some {ℓ} : {A : Type ℓ} → Option A → Bool
is_some none = false
is_some (some _) = true

-- The payload of the last entry.
unfoldable pub last_payload {ℓ} : {P : Type ℓ} → List (Str × P) → Option P
last_payload [] = none
last_payload ((id, payload) ∷ []) = some payload
last_payload (e ∷ f ∷ es) = last_payload (f ∷ es)

back-last_payload {ℓ} :
    {P : Type ℓ} (n : Element P) (q : List (Element P))
    → (b : Element P) × (back (n ∷ q) ≡ some b)
      × (last_payload (view (n ∷ q)) ≡ some b.value.payload)
unfolding back last_payload view
back-last_payload n [] = (n, refl, refl)
back-last_payload n (m ∷ q) = back-last_payload m q

oldest {ℓ} :
    {P : Type ℓ} (q : List (Element P))
    → (if ltb 0 (length q)
        then elim (back q) [ some n ↦ returns (some n.value.payload) | none ↦ panics ]
        else returns none)
      ≡ returns (last_payload (view q))
unfolding back last_payload view
oldest [] = refl
oldest (n ∷ q) = let (b, e, last) = back-last_payload n q in ground (arith, e, last)

module _ {ℓ} {P : Type ℓ} {l : LruCache P} (v : IsValid l) where
  open l use {capacity, queue, entries}

  pub same-Becomes : Becomes l l (contents l)
  same-Becomes = record { valid = v; same_capacity = refl; holds = refl }

  used_miss : (id : Str) → lookup id entries ≡ none → Becomes l l (used_contents id (contents l))
  unfolding used_contents
  used_miss id e = rw (miss_contents v id e, used_contents) same-Becomes

  -- `Get` and `UpdateAccess` move the same element.
  used_hit :
      (id : Str) (p : ℕ) (n : Element P)
      → Located id p queue n
      → lookup id entries ≡ some p
      → Becomes l (record l { queue = move_to_front p queue }) (used_contents id (contents l))
  unfolding used_contents
  used_hit id p n t e =
      let m : Element P = record {
        addr = n.addr;
        value = record { identifier = id; payload = n.value.payload };
      } in
      let same : m ≡ n = ground (arith, t.identifier_is) in
      rw (moved v id p n t, t.visible, used_contents)
        (subst
          (λ k.
            Becomes l (record l { queue = k ∷ remove_node p queue })
              (touch id n.value.payload (contents l)))
          same (relocate-Becomes v id p n n.value.payload t e))

  pub get-Becomes :
      (id : Str)
      → (l' : LruCache P) × (get id l ≡ returns (l', lookup id (contents l)))
        × Becomes l l' (used_contents id (contents l))
  unfolding get
  get-Becomes id = elim (Option-cases (lookup id entries)) [
    | inl e ↦ (l, ground (arith, miss_contents v id e), used_miss id e)
    | inr (p, e) ↦
        let (n, t) = locate_entry v.links id p e in
        (
          record l { queue = move_to_front p queue },
          ground (arith, t.found, t.visible),
          used_hit id p n t e,
        )
  ]

  pub update_access-Becomes :
      (id : Str) → Becomes l (update_access id l) (used_contents id (contents l))
  unfolding update_access
  update_access-Becomes id = elim (Option-cases (lookup id entries)) [
    | inl e ↦ rw (e, update_access) (used_miss id e)
    | inr (p, e) ↦
        let (n, t) = locate_entry v.links id p e in rw (e, update_access) (used_hit id p n t e)
  ]

  pub has-contents : (id : Str) → has id l ≡ is_some (lookup id (contents l))
  unfolding has
  has-contents id = elim (Option-cases (lookup id entries)) [
    | inl e ↦ ground (arith, miss_contents v id e)
    | inr (p, e) ↦ let (n, t) = locate_entry v.links id p e in ground (arith, t.visible)
  ]

  pub remove-Becomes :
      (id : Str)
      → ((remove id l).1 ≡ is_some (lookup id (contents l)))
        × Becomes l (remove id l).0 (delete id (contents l))
  unfolding remove
  remove-Becomes id = elim (Option-cases (lookup id entries)) [
    | inl e ↦ (
      ground (arith, miss_contents v id e),
      rw (e, remove, delete_absent id (contents l) (miss_contents v id e)) same-Becomes,
    )
    | inr (p, e) ↦
        let (n, t) = locate_entry v.links id p e in
        (ground (arith, t.visible), rw (e, remove) (unlink-Becomes v id p n t e))
  ]

  pub size-contents : size l ≡ length (contents l)
  unfolding size
  size-contents = v.links.sized ∙ sym (length-view queue)

  size-Fits : Fits (size l) capacity
  unfolding size
  size-Fits = rw v.links.sized v.fits

  pub get_oldest-contents : get_oldest l ≡ returns (last_payload (contents l))
  unfolding get_oldest
  get_oldest-contents = rw v.links.sized (oldest queue)

  pub clear-Becomes : Becomes l (clear l) []
  unfolding clear view
  clear-Becomes = record {
    valid = record { links = nil-IsLinked l.next; fits = Fits-zero capacity };
    same_capacity = refl;
    holds = refl;
  }

  -- On a valid cache of the capacity 0 a `Put` panics: it follows the nil pointer that `Back`
  -- returns.
  put-zero : (id : Str) (payload : P) → capacity ≡ pos 0 → put id payload l ≡ panics
  unfolding put make_room
  put-zero id payload zero_room =
      let no_nodes : length queue ≤ 0 = subst (Fits (length queue)) zero_room v.fits in
      let e : queue ≡ [] = ground arith in
      let absent : lookup id entries ≡ none =
        v.links.linked id ∙ ap (addr_of id) e ∙ unfold addr_of in refl in
      let nothing : back queue ≡ none = ap back e ∙ unfold back in refl in
      let full : eqb_ℤ (pos (length queue)) capacity ≡ true =
        (eqb_ℤ_iff _ _).1 (ap (λ q. pos (length q)) e ∙ sym zero_room) in
      ground arith
