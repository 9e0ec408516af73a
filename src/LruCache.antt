-- ===== src/LruCache.antt =====
-- internal/lrucache/lrucache.go: the bounded cache of the compiled programs.
-- `container/list` keeps its elements on the heap and `entries` maps an identifier to a pointer
-- to one of them; here a pointer is an address, and the queue holds the elements, front first.
-- The element of the list and the `*list.Element` that is boxed in it are one `Element`. An address
-- that is not in the queue (a detached element) cannot be followed here: `get` then panics.
-- Every method is one step, as it holds the lock `dmu` from its start to its end.
pub mod Queue
pub mod Located
pub mod Valid
pub mod Refine
pub mod Putting
pub mod Methods
pub mod Ids
pub mod Reads
pub mod Runs
pub mod History
pub mod Race
use cel_service.Base.Dict.{lookup, insert, delete}
use cel_service.Base.Int.{ℤ, pos, eqb_ℤ}
use cel_service.Base.Text.{Str}
use cel_service.Base.{
  ℕ, ◌+◌, ◌==◌, if◌then◌else◌, Bool, true, false, Option, none, some, List, [], ◌∷◌, map, length,
  ltb, Call, returns, panics, ◌>>=◌,
}

pub record LruEntry {ℓ} (P : Type ℓ) : Type ℓ where
  pub identifier : Str
  pub payload : P

pub record Element {ℓ} (P : Type ℓ) : Type ℓ where
  pub addr : ℕ
  pub value : LruEntry P

-- `next` is the next address that is free.
pub record LruCache {ℓ} (P : Type ℓ) : Type ℓ where
  pub capacity : ℤ
  pub queue : List (Element P)
  pub entries : List (Str × ℕ)
  pub next : ℕ

module _ {ℓ} {P : Type ℓ} where
  -- The element that a pointer points to.
  unfoldable pub find_node : ℕ → List (Element P) → Option (Element P)
  find_node p [] = none
  find_node p (n ∷ q) = if n.addr == p then some n else find_node p q

  -- `queue.Remove(n)`
  unfoldable pub remove_node : ℕ → List (Element P) → List (Element P)
  remove_node p [] = []
  remove_node p (n ∷ q) = if n.addr == p then remove_node p q else n ∷ remove_node p q

  -- `queue.MoveToFront(n)`; an element of another list is left where it is.
  unfoldable pub move_to_front : ℕ → List (Element P) → List (Element P)
  unfolding find_node remove_node
  move_to_front p q = elim (find_node p q) [ none ↦ q | some n ↦ n ∷ remove_node p q ]

  -- `n.Value.(*list.Element).Value = e`
  unfoldable pub set_value : ℕ → LruEntry P → List (Element P) → List (Element P)
  set_value p e [] = []
  set_value p e (n ∷ q) = (if n.addr == p then record n { value = e } else n) ∷ set_value p e q

  -- `queue.Back()`, nil on the empty list.
  unfoldable pub back : List (Element P) → Option (Element P)
  back [] = none
  back (n ∷ []) = some n
  back (n ∷ m ∷ q) = back (m ∷ q)

  unfoldable pub new : ℤ → LruCache P
  new capacity = record { capacity = capacity; queue = []; entries = []; next = 0 }

  unfoldable pub size : LruCache P → ℕ
  size l = length l.entries

  -- The part of `Put` that makes room: `queue.Back()` is nil on an empty list, and following it
  -- panics.
  unfoldable pub make_room : LruCache P → Call (LruCache P)
  unfolding back remove_node delete
  make_room l =
      if eqb_ℤ (pos (length l.queue)) l.capacity
      then elim (back l.queue) [
        | none ↦ panics
        | some b ↦ returns (record l {
          entries = delete b.value.identifier l.entries;
          queue = remove_node b.addr l.queue;
        })
      ]
      else returns l

  -- `p := l.queue.PushFront(n); l.entries[id] = p`
  unfoldable pub push_front : Str → LruEntry P → LruCache P → LruCache P
  unfolding insert
  push_front id e l = record l {
    queue = record { addr = l.next; value = e } ∷ l.queue;
    entries = insert id l.next l.entries;
    next = l.next + 1;
  }

  unfoldable pub put : Str → P → LruCache P → Call (LruCache P × Bool)
  unfolding lookup move_to_front set_value make_room push_front
  put id payload l =
      let e : LruEntry P = record { identifier = id; payload = payload } in
      elim (lookup id l.entries) [
        | some n ↦ returns (record l { queue = set_value n e (move_to_front n l.queue) }, true)
        | none ↦ make_room l >>= (λ l'. returns (push_front id e l', true))
      ]

  unfoldable pub update_access : Str → LruCache P → LruCache P
  unfolding lookup move_to_front
  update_access id l = elim (lookup id l.entries) [
    | some n ↦ record l { queue = move_to_front n l.queue }
    | none ↦ l
  ]

  -- The identifiers, in the order in which `range` visits the map.
  pub get_full_id_list : LruCache P → List Str
  get_full_id_list l = map (λ e. e.0) l.entries

  unfoldable pub has : Str → LruCache P → Bool
  unfolding lookup
  has id l = elim (lookup id l.entries) [ some _ ↦ true | none ↦ false ]

  unfoldable pub get : Str → LruCache P → Call (LruCache P × Option P)
  unfolding lookup find_node move_to_front
  get id l = elim (lookup id l.entries) [
    | some n ↦ elim (find_node n l.queue) [
      | some v ↦ returns (record l { queue = move_to_front n l.queue }, some v.value.payload)
      | none ↦ panics
    ]
    | none ↦ returns (l, none)
  ]

  unfoldable pub remove : Str → LruCache P → LruCache P × Bool
  unfolding lookup delete remove_node
  remove id l = elim (lookup id l.entries) [
    | some n ↦ (record l { entries = delete id l.entries; queue = remove_node n l.queue }, true)
    | none ↦ (l, false)
  ]

  unfoldable pub get_oldest : LruCache P → Call (Option P)
  unfolding back
  get_oldest l =
      if ltb 0 (length l.entries)
      then elim (back l.queue) [ some n ↦ returns (some n.value.payload) | none ↦ panics ]
      else returns none

  unfoldable pub clear : LruCache P → LruCache P
  clear l = record l { entries = []; queue = [] }
