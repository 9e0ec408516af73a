-- ===== src/LruCache/Queue.antt =====
-- Searching and unlinking in the queue of internal/lrucache/lrucache.go.
use cel_service.Base.Dict.{lookup}
use cel_service.Base.Text.{Str, str_eq}
use cel_service.Base.{
  ℕ, ◌+◌, ◌≡◌, refl, arith, Option, none, some, List, [], ◌∷◌, length, All, if◌then◌else◌, ◌<◌,
}
use cel_service.LruCache.{Element, find_node, remove_node}

module _ {ℓ} {P : Type ℓ} where
  -- The entries in the order of their last use, the most recent first.
  unfoldable pub view : List (Element P) → List (Str × P)
  view [] = []
  view (n ∷ q) = (n.value.identifier, n.value.payload) ∷ view q

  -- The address of the first element with the identifier.
  unfoldable pub addr_of : Str → List (Element P) → Option ℕ
  addr_of id [] = none
  addr_of id (n ∷ q) = if str_eq n.value.identifier id then some n.addr else addr_of id q

  -- No address stands twice.
  abbrev pub DistinctAddrs : List (Element P) → Type ℓ
  DistinctAddrs [] = Unit
  DistinctAddrs (n ∷ q) = (find_node n.addr q ≡ none) × DistinctAddrs q

  pub length-view : (q : List (Element P)) → length (view q) ≡ length q
  unfolding view
  length-view [] = refl
  length-view (n ∷ q) = ground (arith, length-view q)

  pub remove_node_absent :
      (p : ℕ) (q : List (Element P)) → find_node p q ≡ none → remove_node p q ≡ q
  unfolding find_node remove_node
  remove_node_absent p [] h = refl
  remove_node_absent p (n ∷ q) h = ground (arith, remove_node_absent p q)

  find_node-remove_node :
      (p r : ℕ) (q : List (Element P)) → find_node r q ≡ none → find_node r (remove_node p q) ≡ none
  unfolding find_node remove_node
  find_node-remove_node p r [] h = refl
  find_node-remove_node p r (n ∷ q) h = ground (arith, find_node-remove_node p r q)

  pub find_node-remove_node_self :
      (p : ℕ) (q : List (Element P)) → find_node p (remove_node p q) ≡ none
  unfolding find_node remove_node
  find_node-remove_node_self p [] = refl
  find_node-remove_node_self p (n ∷ q) = ground (arith, find_node-remove_node_self p q)

  pub remove_node-DistinctAddrs :
      (p : ℕ) (q : List (Element P)) → DistinctAddrs q → DistinctAddrs (remove_node p q)
  unfolding find_node remove_node
  remove_node-DistinctAddrs p [] d = tt
  remove_node-DistinctAddrs p (n ∷ q) (f, d) =
      ground (arith, find_node-remove_node p n.addr q, remove_node-DistinctAddrs p q d)

  pub remove_node-fresh :
      (p bound : ℕ) (q : List (Element P))
      → All (λ n. n.addr < bound) q
      → All (λ n. n.addr < bound) (remove_node p q)
  unfolding remove_node
  remove_node-fresh p bound [] h = tt
  remove_node-fresh p bound (n ∷ q) (l, h) = ground (arith, remove_node-fresh p bound q h)

  pub find_node_fresh :
      (bound : ℕ) (q : List (Element P)) → All (λ n. n.addr < bound) q → find_node bound q ≡ none
  unfolding find_node
  find_node_fresh bound [] h = refl
  find_node_fresh bound (n ∷ q) (l, h) = ground (arith, find_node_fresh bound q h)

  pub find_node-lt :
      (p bound : ℕ) (n : Element P) (q : List (Element P))
      → All (λ m. m.addr < bound) q
      → find_node p q ≡ some n
      → p < bound
  unfolding find_node
  find_node-lt p bound n [] h e = cc
  find_node-lt p bound n (m ∷ q) (l, h) e = ground (arith, find_node-lt p bound n q h)

  pub fresh-suc :
      (bound : ℕ) (q : List (Element P))
      → All (λ n. n.addr < bound) q
      → All (λ n. n.addr < bound + 1) q
  fresh-suc bound [] h = tt
  fresh-suc bound (n ∷ q) (l, h) = (omega arith, fresh-suc bound q h)

  pub length-remove_node :
      (p : ℕ) (n : Element P) (q : List (Element P))
      → DistinctAddrs q
      → find_node p q ≡ some n
      → length (remove_node p q) + 1 ≡ length q
  unfolding find_node remove_node
  length-remove_node p n [] d h = cc
  length-remove_node p n (m ∷ q) (f, d) h =
      ground (arith, remove_node_absent p q, length-remove_node p n q d)

  -- An identifier has an address exactly if it is in the view.
  pub addr_of-none :
      (id : Str) (q : List (Element P)) → lookup id (view q) ≡ none → addr_of id q ≡ none
  unfolding addr_of view lookup
  addr_of-none id [] h = refl
  addr_of-none id (n ∷ q) h = ground (arith, addr_of-none id q)

  pub lookup-view-none :
      (id : Str) (q : List (Element P)) → addr_of id q ≡ none → lookup id (view q) ≡ none
  unfolding addr_of view lookup
  lookup-view-none id [] h = refl
  lookup-view-none id (n ∷ q) h = ground (arith, lookup-view-none id q)
