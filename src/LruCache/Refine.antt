-- ===== src/LruCache/Refine.antt =====
-- Each method of internal/lrucache/lrucache.go against a list of entries in the order of their
-- last use, the most recent first.
use cel_service.Base.Dict.{lookup, delete}
use cel_service.Base.Int.{ℤ, pos, negsuc, eqb_ℤ}
use cel_service.Base.Text.{Str}
use cel_service.Base.{
  ℕ, suc, ◌+◌, ◌≡◌, refl, sym, ◌∙◌, ap, arith, none, some, List, [], ◌∷◌, length, if◌then◌else◌,
}
use cel_service.LruCache.Located.{Located, drop_last}
use cel_service.LruCache.Queue.{view, lookup-view-none}
use cel_service.LruCache.Valid.{Fits, IsValid, unlink-IsLinked, length-unlink, relocate-IsLinked}
use cel_service.LruCache.{LruEntry, Element, LruCache, find_node, remove_node, set_value}

module _ {ℓ} {P : Type ℓ} where
  -- The entries of a cache, the most recently used first.
  abbrev pub contents : LruCache P → List (Str × P)
  contents l = view l.queue

  -- Putting an entry in front, and out of where it stood.
  unfoldable pub touch : Str → P → List (Str × P) → List (Str × P)
  touch id payload es = (id, payload) ∷ delete id es

  -- The contents after `Put`: the last entry goes if there is no room for a new one.
  unfoldable pub put_contents : ℤ → Str → P → List (Str × P) → List (Str × P)
  unfolding touch drop_last
  put_contents capacity id payload es = elim (lookup id es) [
    | some _ ↦ touch id payload es
    | none ↦ (id, payload) ∷ (if eqb_ℤ (pos (length es)) capacity then drop_last es else es)
  ]

  -- The contents after `Get` and after `UpdateAccess`.
  unfoldable pub used_contents : Str → List (Str × P) → List (Str × P)
  unfolding touch
  used_contents id es = elim (lookup id es) [ some v ↦ touch id v es | none ↦ es ]

  pub set_value_absent :
      (p : ℕ) (e : LruEntry P) (q : List (Element P)) → find_node p q ≡ none → set_value p e q ≡ q
  unfolding find_node set_value
  set_value_absent p e [] h = refl
  set_value_absent p e (n ∷ q) h = ground (arith, set_value_absent p e q)

  lookup-view-found :
      (l : LruCache P) (id : Str)
      → IsValid l
      → lookup id l.entries ≡ none
      → lookup id (contents l) ≡ none
  lookup-view-found l id v e = lookup-view-none id l.queue (sym (v.links.linked id) ∙ e)

Fits-le : (a b : ℕ) (c : ℤ) → a + 1 ≡ b → Fits b c → Fits a c
Fits-le a b (pos k) e f = omega arith
Fits-le a b (negsuc k) e f = tt

Fits-eq : (a b : ℕ) (c : ℤ) → a + 1 ≡ b → Fits b c → Fits (suc a) c
Fits-eq a b (pos k) e f = omega arith
Fits-eq a b (negsuc k) e f = tt

-- The cache `l'` follows `l` in a valid state, and holds the entries `es`.
pub record Becomes {ℓ} {P : Type ℓ} (l l' : LruCache P) (es : List (Str × P)) : Type ℓ where
  pub valid : IsValid l'
  pub same_capacity : l'.capacity ≡ l.capacity
  pub holds : contents l' ≡ es

module _ {ℓ} {P : Type ℓ} {l : LruCache P} (v : IsValid l) where
  -- Moving the element of an identifier to the front and giving it a payload.
  pub relocate-Becomes :
      (id : Str) (p : ℕ) (n : Element P) (payload : P)
      → Located id p l.queue n
      → lookup id l.entries ≡ some p
      → Becomes l
          (record l {
            queue =
                record { addr = n.addr; value = record { identifier = id; payload = payload } }
                ∷ remove_node p l.queue;
          })
          (touch id payload (contents l))
  unfolding view touch
  relocate-Becomes id p n payload t e = record {
    valid = record {
      links = relocate-IsLinked v.links id p n t e _ t.at_p refl;
      fits = Fits-eq _ _ l.capacity (length-unlink v.links id p n t e) v.fits;
    };
    same_capacity = refl;
    holds = ap (◌∷◌ (id, payload)) t.unlinked;
  }

  -- Unlinking the element of an identifier.
  pub unlink-Becomes :
      (id : Str) (p : ℕ) (n : Element P)
      → Located id p l.queue n
      → lookup id l.entries ≡ some p
      → Becomes l
          (record l { entries = delete id l.entries; queue = remove_node p l.queue })
          (delete id (contents l))
  unlink-Becomes id p n t e = record {
    valid = record {
      links = unlink-IsLinked v.links id p n t e;
      fits = Fits-le _ _ l.capacity (length-unlink v.links id p n t e) v.fits;
    };
    same_capacity = refl;
    holds = t.unlinked;
  }
