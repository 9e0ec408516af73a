-- ===== src/LruCache/Runs.antt =====
-- Sequences of calls of the cache of internal/lrucache/lrucache.go. A call holds the lock from its
-- start to its end, so an interleaving of goroutines is such a sequence.
use cel_service.Base.Dict.{lookup, delete}
use cel_service.Base.Int.{ℤ, pos}
use cel_service.Base.Text.{Str}
use cel_service.Base.{
  ℕ, ◌≡◌, ◌≢◌, refl, arith, Bool, Option, List, [], ◌∷◌, length, Call, returns, ◌>>=◌, ◌∙◌, true,
}
use cel_service.LruCache.Putting.{put-Becomes}
use cel_service.LruCache.Methods.{
  is_some, last_payload, get-Becomes, update_access-Becomes, has-contents, remove-Becomes,
  size-contents, get_oldest-contents, clear-Becomes, same-Becomes, Fits-zero,
}
use cel_service.LruCache.Queue.{view}
use cel_service.LruCache.Refine.{contents, put_contents, used_contents, Becomes}
use cel_service.LruCache.Valid.{IsValid, nil-IsLinked}
use cel_service.LruCache.{
  LruCache, new, size, put, update_access, has, get, remove, get_oldest, clear,
}

pub data Method {ℓ} (P : Type ℓ) : Type ℓ where
  put_it : Str → P → Method P
  get_it update_it has_it remove_it : Str → Method P
  size_it oldest_it clear_it : Method P

-- What a caller sees.
pub data Answer {ℓ} (P : Type ℓ) : Type ℓ where
  flag : Bool → Answer P
  value : Option P → Answer P
  number : ℕ → Answer P
  nothing : Answer P

module _ {ℓ} {P : Type ℓ} where
  unfoldable pub call : Method P → LruCache P → Call (LruCache P × Answer P)
  unfolding put get update_access has remove size get_oldest clear
  call (put_it id payload) l = do (l', b) ← put id payload l; returns (l', flag b)
  call (get_it id) l = do (l', v) ← get id l; returns (l', value v)
  call (update_it id) l = returns (update_access id l, nothing)
  call (has_it id) l = returns (l, flag (has id l))
  call (remove_it id) l = let (l', b) = remove id l in returns (l', flag b)
  call size_it l = returns (l, number (size l))
  call oldest_it l = do v ← get_oldest l; returns (l, value v)
  call clear_it l = returns (clear l, nothing)

  unfoldable pub run : List (Method P) → LruCache P → Call (LruCache P × List (Answer P))
  unfolding call
  run [] l = returns (l, [])
  run (m ∷ ms) l = do (l', a) ← call m l; (l'', as_) ← run ms l'; returns (l'', a ∷ as_)

  -- The same calls on the list of entries.
  unfoldable call_contents : ℤ → Method P → List (Str × P) → List (Str × P) × Answer P
  call_contents c (put_it id payload) es = (put_contents c id payload es, flag true)
  call_contents c (get_it id) es = (used_contents id es, value (lookup id es))
  call_contents c (update_it id) es = (used_contents id es, nothing)
  call_contents c (has_it id) es = (es, flag (is_some (lookup id es)))
  call_contents c (remove_it id) es = (delete id es, flag (is_some (lookup id es)))
  call_contents c size_it es = (es, number (length es))
  call_contents c oldest_it es = (es, value (last_payload es))
  call_contents c clear_it es = ([], nothing)

  unfoldable pub run_contents :
      ℤ → List (Method P) → List (Str × P) → List (Str × P) × List (Answer P)
  unfolding call_contents
  run_contents c [] es = (es, [])
  run_contents c (m ∷ ms) es =
      let (es', a) = call_contents c m es in
      let (es'', as_) = run_contents c ms es' in (es'', a ∷ as_)

  module _ {l : LruCache P} (v : IsValid l) (some_room : l.capacity ≢ pos 0) where
    call-Becomes :
        (m : Method P)
        → (l' : LruCache P) × (call m l ≡ returns (l', (call_contents l.capacity m (contents l)).1))
          × Becomes l l' (call_contents l.capacity m (contents l)).0
    unfolding call call_contents
    call-Becomes (put_it id payload) =
        let (l', e, b) = put-Becomes v id payload some_room in (l', ground (arith, e), b)
    call-Becomes (get_it id) = let (l', e, b) = get-Becomes v id in (l', ground (arith, e), b)
    call-Becomes (update_it id) = (update_access id l, refl, update_access-Becomes v id)
    call-Becomes (has_it id) = (l, ground (arith, has-contents v id), same-Becomes v)
    call-Becomes (remove_it id) =
        let (e, b) = remove-Becomes v id in ((remove id l).0, ground (arith, e), b)
    call-Becomes size_it = (l, ground (arith, size-contents v), same-Becomes v)
    call-Becomes oldest_it = (l, ground (arith, get_oldest-contents v), same-Becomes v)
    call-Becomes clear_it = (clear l, refl, clear-Becomes v)

module _ {ℓ} {P : Type ℓ} where
  run-Becomes :
      (ms : List (Method P)) (l : LruCache P)
      → IsValid l
      → l.capacity ≢ pos 0
      → (l' : LruCache P) × (run ms l ≡ returns (l', (run_contents l.capacity ms (contents l)).1))
        × Becomes l l' (run_contents l.capacity ms (contents l)).0
  unfolding run run_contents
  run-Becomes [] l v some_room = (l, refl, same-Becomes v)
  run-Becomes (m ∷ ms) l v some_room =
      let (l', e, b) = call-Becomes v some_room m in
      let (l'', e', b') = run-Becomes ms l' b.valid (rw b.same_capacity some_room) in
      (
        l'',
        rw e (rw e' (rw (b.same_capacity, b.holds) refl)),
        record {
          valid = b'.valid;
          same_capacity = b'.same_capacity ∙ b.same_capacity;
          holds = b'.holds ∙ rw (b.same_capacity, b.holds) refl;
        },
      )

  pub new-IsValid : (capacity : ℤ) → IsValid (new {P = P} capacity)
  unfolding new
  new-IsValid capacity = record { links = nil-IsLinked 0; fits = Fits-zero capacity }

  -- From a new cache of a capacity other than 0, no sequence of calls panics, and every call
  -- answers what it answers on the list of entries in order of use. The cache ends valid and holds
  -- these entries.
  pub run-new :
      (capacity : ℤ) (ms : List (Method P))
      → capacity ≢ pos 0
      → (l : LruCache P) × (run ms (new capacity) ≡ returns (l, (run_contents capacity ms []).1))
        × IsValid l
        × (contents l ≡ (run_contents capacity ms []).0)
  unfolding new view
  run-new capacity ms some_room =
      let (l, e, b) = run-Becomes ms (new capacity) (new-IsValid capacity) some_room in
      (l, e, b.valid, b.holds)
