-- ===== src/Examples/Cache.antt =====
-- Tests of the cache of internal/lrucache/lrucache.go.
use cel_service.Base.Dict.{lookup, insert, delete}
use cel_service.Base.Int.{pos}
use cel_service.Base.Text.{Str, text, str_eq}
use cel_service.Base.{
  ℕ, ◌≡◌, ◌↔◌, refl, arith, true, false, some, List, [], ◌∷◌, returns, take, map, length,
}
use cel_service.LruCache.History.{Use, stored, read, history, method, run-history}
use cel_service.LruCache.Ids.{get_full_id_list-has}
use cel_service.LruCache.Refine.{contents}
use cel_service.LruCache.Runs.{
  Method, put_it, get_it, has_it, remove_it, size_it, oldest_it, flag, value, number, call, run,
  run_contents, run-new, new-IsValid,
}
use cel_service.LruCache.Valid.{IsValid}
use cel_service.LruCache
use cel_service.LruCache.{LruCache}
use mathlib.Core.List.{Mem, Nodup}

program : Unit {0}
unfolding run call text str_eq lookup insert delete LruCache.new LruCache.put LruCache.get
    LruCache.has LruCache.remove LruCache.update_access LruCache.size LruCache.get_oldest
    LruCache.clear LruCache.make_room LruCache.push_front LruCache.find_node LruCache.remove_node
    LruCache.move_to_front LruCache.set_value LruCache.back
program = tt

abbrev session : List (Method ℕ)
session =
    put_it (text "a") 1
    ∷ put_it (text "b") 2
    ∷ get_it (text "a")
    ∷ put_it (text "c") 3
    ∷ has_it (text "b")
    ∷ oldest_it
    ∷ remove_it (text "a")
    ∷ size_it
    ∷ []

-- The entry that was not used goes first.
session_answers :
    (l : LruCache ℕ) × (run session (LruCache.new (pos 2))
      ≡ returns (
        l,
        flag true
            ∷ flag true
            ∷ value (some 1)
            ∷ flag true
            ∷ flag false
            ∷ value (some 1)
            ∷ flag true
            ∷ number 1
            ∷ [],
      ))
unfolding program
session_answers = (_, refl)

run-new_example :
    (l : LruCache ℕ) × (run session (LruCache.new (pos 2))
      ≡ returns (l, (run_contents (pos 2) session []).1))
    × IsValid l
    × (contents l ≡ (run_contents (pos 2) session []).0)
run-new_example = run-new (pos 2) session (λ e. absurd (ground arith))

abbrev uses : List (Use ℕ)
uses = stored (text "a") 1 ∷ stored (text "b") 2 ∷ read (text "a") ∷ stored (text "c") 3 ∷ []

run-history_example :
    (l : LruCache ℕ) × (run (map method uses) (LruCache.new (pos 2))
      ≡ returns (l, (run_contents (pos 2) (map method uses) []).1))
    × (contents l ≡ take 2 (history 2 [] uses))
run-history_example = run-history 1 uses

get_full_id_list-has_example :
    ((id : Str)
      → (LruCache.has id (LruCache.new {P = ℕ} (pos 2)) ≡ true)
        ↔ Mem id (LruCache.get_full_id_list (LruCache.new {P = ℕ} (pos 2))))
    × Nodup (LruCache.get_full_id_list (LruCache.new {P = ℕ} (pos 2)))
    × (length (LruCache.get_full_id_list (LruCache.new {P = ℕ} (pos 2)))
        ≡ LruCache.size (LruCache.new {P = ℕ} (pos 2)))
get_full_id_list-has_example = get_full_id_list-has (LruCache.new (pos 2)) (new-IsValid (pos 2))
