-- ===== src/LruCache/Located.antt =====
-- What the pointer of an identifier leads to, and what unlinking its element does to the queue.
use cel_service.Base.Dict.{lookup, delete, delete_absent, Distinct}
use cel_service.Base.Text.{Str, str_eq_iff, str_eq_cases}
use cel_service.Base.{ℕ, ◌≡◌, refl, ◌≢◌, arith, none, some, List, [], ◌∷◌, inl, inr}
use cel_service.LruCache.{Element, find_node, remove_node, back}
use cel_service.LruCache.Queue.{view, addr_of, DistinctAddrs, remove_node_absent}

-- `n` is the element at `p` and holds the identifier `id`.
pub record Located {ℓ} {P : Type ℓ} (id : Str) (p : ℕ) (q : List (Element P)) (n : Element P)
    : Type ℓ where
  pub found : find_node p q ≡ some n
  pub at_p : n.addr ≡ p
  pub identifier_is : n.value.identifier ≡ id
  pub visible : lookup id (view q) ≡ some n.value.payload
  pub unlinked : view (remove_node p q) ≡ delete id (view q)

module _ {ℓ} {P : Type ℓ} where
  Located-there :
      (id : Str) (p : ℕ) (m n : Element P) (q : List (Element P))
      → m.value.identifier ≢ id
      → m.addr ≢ p
      → Located id p q n
      → Located id p (m ∷ q) n
  unfolding find_node remove_node view lookup delete
  Located-there id p m n q other apart t = record {
    found = ground (arith, t.found);
    at_p = t.at_p;
    identifier_is = t.identifier_is;
    visible = ground (arith, str_eq_iff m.value.identifier id, t.visible);
    unlinked = ground (arith, str_eq_iff m.value.identifier id, t.unlinked);
  }

  pub locate :
      (id : Str) (p : ℕ) (q : List (Element P))
      → DistinctAddrs q
      → Distinct (view q)
      → addr_of id q ≡ some p
      → (n : Element P) × Located id p q n
  unfolding find_node remove_node view addr_of lookup delete
  locate id p [] da di h = cc
  locate id p (m ∷ q) (fa, da) (fi, di) h = elim (str_eq_cases m.value.identifier id) [
    | inl (same, test) ↦ (
      m,
      record {
        found = ground arith;
        at_p = ground arith;
        identifier_is = same;
        visible = ground arith;
        unlinked = ground (
          arith,
          remove_node_absent p q,
          delete_absent m.value.identifier (view q) fi,
          delete_absent id (view q),
        );
      },
    )
    | inr (other, test) ↦
        let (n, t) = locate id p q da di (ground arith) in
        (n, Located-there id p m n q other (λ e. ground (arith, t.found)) t)
  ]

  -- Other identifiers keep their addresses when an element is unlinked.
  pub addr_of-remove_node :
      (id j : Str) (p : ℕ) (n : Element P) (q : List (Element P))
      → DistinctAddrs q
      → find_node p q ≡ some n
      → n.value.identifier ≡ id
      → id ≢ j
      → addr_of j (remove_node p q) ≡ addr_of j q
  unfolding find_node remove_node addr_of
  addr_of-remove_node id j p n [] da f e ne = refl
  addr_of-remove_node id j p n (m ∷ q) (fa, da) f e ne = ground (
    arith,
    str_eq_iff m.value.identifier j,
    remove_node_absent p q,
    addr_of-remove_node id j p n q da,
  )

-- The list without its last entry.
unfoldable pub drop_last {ℓ} : {A : Type ℓ} → List A → List A
drop_last [] = []
drop_last (x ∷ []) = []
drop_last (x ∷ y ∷ xs) = x ∷ drop_last (y ∷ xs)

module _ {ℓ} {P : Type ℓ} where
  lookup-back :
      (b : Element P) (q : List (Element P))
      → back q ≡ some b
      → lookup b.value.identifier (view q) ≢ none
  unfolding back view lookup
  lookup-back b [] h = cc
  lookup-back b (n ∷ []) h = ground (arith, str_eq_iff b.value.identifier b.value.identifier)
  lookup-back b (n ∷ m ∷ q) h = ground (arith, lookup-back b (m ∷ q) h)

  -- The element at the back is found under its own identifier, and unlinking that identifier
  -- takes off the last entry.
  pub addr_of-back :
      (b : Element P) (q : List (Element P))
      → Distinct (view q)
      → back q ≡ some b
      → addr_of b.value.identifier q ≡ some b.addr
  unfolding back view lookup addr_of
  addr_of-back b [] d h = cc
  addr_of-back b (n ∷ []) d h = ground (arith, str_eq_iff b.value.identifier b.value.identifier)
  addr_of-back b (n ∷ m ∷ q) (f, d) h = ground (
    arith,
    str_eq_iff n.value.identifier b.value.identifier,
    lookup-back b (m ∷ q) h,
    addr_of-back b (m ∷ q) d h,
  )

  pub delete-back :
      (b : Element P) (q : List (Element P))
      → Distinct (view q)
      → back q ≡ some b
      → delete b.value.identifier (view q) ≡ drop_last (view q)
  unfolding back view lookup delete drop_last
  delete-back b [] d h = cc
  delete-back b (n ∷ []) d h = ground (arith, str_eq_iff b.value.identifier b.value.identifier)
  delete-back b (n ∷ m ∷ q) (f, d) h = ground (
    arith,
    str_eq_iff n.value.identifier b.value.identifier,
    lookup-back b (m ∷ q) h,
    delete-back b (m ∷ q) d h,
  )

  pub back-none : (q : List (Element P)) → back q ≡ none → q ≡ []
  unfolding back
  back-none [] h = refl
  back-none (n ∷ []) h = cc
  back-none (n ∷ m ∷ q) h = absurd (ground (arith, back-none (m ∷ q) h))
