-- ===== src/LruCache/Valid.antt =====
-- The invariant of the cache of internal/lrucache/lrucache.go: the map and the list agree, and
-- the list fits the capacity.
use cel_service.Base.Dict.{
  lookup, insert, delete, Distinct, lookup-insert, lookup-delete, length-delete,
  length-insert_absent, Distinct-insert, Distinct-delete,
}
use cel_service.Base.Int.{ℤ, pos, negsuc}
use cel_service.Base.Text.{Str, str_eq, str_eq_iff, str_eq_cases}
use cel_service.Base.{
  ℕ, ◌+◌, ◌≤◌, ◌<◌, ◌≡◌, refl, sym, ◌∙◌, arith, none, some, List, [], ◌∷◌, length, All, inl, inr,
  if◌then◌else◌,
}
use cel_service.LruCache.Located.{Located, locate, addr_of-remove_node}
use cel_service.LruCache.Queue.{
  view, addr_of, DistinctAddrs, addr_of-none, lookup-view-none, find_node-remove_node_self,
  remove_node-DistinctAddrs, remove_node-fresh, find_node_fresh, find_node-lt, fresh-suc,
  length-remove_node,
}
use cel_service.LruCache.{Element, LruCache, remove_node}

-- No limit is ever met under a negative capacity.
abbrev pub Fits : ℕ → ℤ → Type 0
Fits n (pos k) = n ≤ k
Fits n (negsuc k) = Unit

-- Everything but the bound.
pub record IsLinked {ℓ} {P : Type ℓ} (q : List (Element P)) (entries : List (Str × ℕ)) (next : ℕ)
    : Type ℓ where
  pub linked : (id : Str) → lookup id entries ≡ addr_of id q
  pub keys : Distinct entries
  pub ids : Distinct (view q)
  addrs : DistinctAddrs q
  pub fresh : All (λ n. n.addr < next) q
  pub sized : length entries ≡ length q

pub record IsValid {ℓ} {P : Type ℓ} (l : LruCache P) : Type ℓ where
  pub links : IsLinked l.queue l.entries l.next
  pub fits : Fits (length l.queue) l.capacity

module _ {ℓ} {P : Type ℓ} {q : List (Element P)} {entries : List (Str × ℕ)} {next : ℕ}
    (h : IsLinked q entries next) where
  -- The address that the map gives is that of an element with this identifier.
  pub locate_entry :
      (id : Str) (p : ℕ) → lookup id entries ≡ some p → (n : Element P) × Located id p q n
  locate_entry id p e = locate id p q h.addrs h.ids (sym (h.linked id) ∙ e)

  module _ (id : Str) (p : ℕ) (n : Element P) (t : Located id p q n)
      (e : lookup id entries ≡ some p) where
    addr_of-remove_node_self : addr_of id (remove_node p q) ≡ none
    addr_of-remove_node_self =
        addr_of-none id (remove_node p q)
          (ground (arith, t.unlinked, lookup-delete id id (view q), str_eq_iff id id))

    addr_of-unlinked :
        (j : Str) → addr_of j (remove_node p q) ≡ (if str_eq id j then none else lookup j entries)
    addr_of-unlinked j = elim (str_eq_cases id j) [
      | inl (same, test) ↦ rw test (rw (← same) addr_of-remove_node_self)
      | inr (other, test) ↦
          rw test (
            addr_of-remove_node id j p n q h.addrs t.found t.identifier_is other ∙ sym (h.linked j))
    ]

    -- Removing an element together with its key keeps the map and the list in step.
    pub unlink-IsLinked : IsLinked (remove_node p q) (delete id entries) next
    unlink-IsLinked = record {
      linked = λ j. lookup-delete id j entries ∙ sym (addr_of-unlinked j);
      keys = Distinct-delete id entries h.keys;
      ids = rw t.unlinked (Distinct-delete id (view q) h.ids);
      addrs = remove_node-DistinctAddrs p q h.addrs;
      fresh = remove_node-fresh p next q h.fresh;
      sized = omega (
        arith,
        length-delete id p entries h.keys e,
        length-remove_node p n q h.addrs t.found,
        h.sized,
      );
    }

    pub length-unlink : length (remove_node p q) + 1 ≡ length q
    length-unlink = length-remove_node p n q h.addrs t.found

    -- Moving an element to the front, with a new payload or its old one, needs no change of the map.
    pub relocate-IsLinked :
        (m : Element P)
        → m.addr ≡ p
        → m.value.identifier ≡ id
        → IsLinked (m ∷ remove_node p q) entries next
    unfolding addr_of view
    relocate-IsLinked m at_p is_id = record {
      linked = λ j. ground (arith, addr_of-unlinked j, str_eq_iff id j);
      keys = h.keys;
      ids = (
        rw (is_id, t.unlinked) (ground (arith, lookup-delete id id (view q), str_eq_iff id id)),
        rw t.unlinked (Distinct-delete id (view q) h.ids),
      );
      addrs = (rw at_p (find_node-remove_node_self p q), remove_node-DistinctAddrs p q h.addrs);
      fresh =
          (rw at_p (find_node-lt p next n q h.fresh t.found), remove_node-fresh p next q h.fresh);
      sized = omega (arith, h.sized, length-unlink);
    }

  -- A new element at the front, under a key that the map lacks.
  pub push-IsLinked :
      (id : Str) (payload : P)
      → lookup id entries ≡ none
      → IsLinked
          (record { addr = next; value = record { identifier = id; payload = payload } } ∷ q)
          (insert id next entries)
          (next + 1)
  unfolding addr_of view
  push-IsLinked id payload e = record {
    linked = λ j. ground (arith, lookup-insert id j next entries, h.linked j);
    keys = Distinct-insert id next entries h.keys;
    ids = (lookup-view-none id q (sym (h.linked id) ∙ e), h.ids);
    addrs = (find_node_fresh next q h.fresh, h.addrs);
    fresh = (omega arith, fresh-suc next q h.fresh);
    sized = omega (arith, length-insert_absent id next entries e, h.sized);
  }

pub nil-IsLinked {ℓ} : {P : Type ℓ} (next : ℕ) → IsLinked {P = P} [] [] next
unfolding addr_of view lookup
nil-IsLinked next = record {
  linked = λ id. refl;
  keys = tt;
  ids = tt;
  addrs = tt;
  fresh = tt;
  sized = refl;
}
