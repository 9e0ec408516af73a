-- ===== src/LruCache/Race.antt =====
-- `Clear` of internal/lrucache/lrucache.go takes no lock: a `Put` of another goroutine may come before
-- it, between its two assignments, or after it.
use cel_service.Base.Dict.{lookup, insert, delete}
use cel_service.Base.Int.{ℤ, pos, eqb_ℤ, eqb_ℤ_iff}
use cel_service.Base.Text.{Str}
use cel_service.Base.{
  ◌≡◌, ◌≢◌, refl, sym, ◌∙◌, ap, Option, none, some, [], length, inl, inr, Option-cases, Bool-cases,
  Call, returns, panics, ◌>>=◌,
}
use cel_service.LruCache.Located.{back-none}
use cel_service.LruCache.Putting.{put-Becomes}
use cel_service.LruCache.Methods.{clear-Becomes, get_oldest-contents, last_payload}
use cel_service.LruCache.Queue.{view}
use cel_service.LruCache.Refine.{put_contents}
use cel_service.LruCache.Valid.{IsValid}
use cel_service.LruCache.{
  LruCache, remove_node, back, make_room, push_front, put, get_oldest, clear,
}

module _ {ℓ} {P : Type ℓ} where
  -- The two assignments.
  abbrev clear_entries : LruCache P → LruCache P
  clear_entries l = record l { entries = [] }

  abbrev clear_queue : LruCache P → LruCache P
  clear_queue l = record l { queue = [] }

  clear_lem : (l : LruCache P) → clear l ≡ clear_queue (clear_entries l)
  unfolding clear
  clear_lem l = refl

pub data Moment : Type 0 where
  before between after : Moment

module _ {ℓ} {P : Type ℓ} where
  -- `Clear` and a `Put` that comes at this moment.
  pub clear_with_put : Moment → Str → P → LruCache P → Call (LruCache P)
  clear_with_put before id payload l =
      put id payload l >>= λ (l', ok). returns (clear_queue (clear_entries l'))
  clear_with_put between id payload l =
      put id payload (clear_entries l) >>= λ (l', ok). returns (clear_queue l')
  clear_with_put after id payload l =
      put id payload (clear_queue (clear_entries l)) >>= λ (l', ok). returns l'

  -- What is the oldest payload then.
  abbrev pub oldest_after : Moment → P → Call (Option P)
  oldest_after before payload = returns none
  oldest_after between payload = panics
  oldest_after after payload = returns (some payload)

  room_in_between :
      (l : LruCache P)
      → l.capacity ≢ pos 0
      → (l' : LruCache P) × (make_room (clear_entries l) ≡ returns l') × (l'.entries ≡ [])
  unfolding make_room delete
  room_in_between l some_room = elim (Bool-cases (eqb_ℤ (pos (length l.queue)) l.capacity)) [
    | inl full ↦ elim (Option-cases (back l.queue)) [
      | inl empty ↦ absurd (
          some_room
            (sym ((eqb_ℤ_iff _ _).0 full) ∙ ap (λ q. pos (length q)) (back-none l.queue empty)))
      | inr (b, e) ↦
          (record l { entries = []; queue = remove_node b.addr l.queue }, rw (full, e) refl, refl)
    ]
    | inr free ↦ (clear_entries l, rw (free) refl, refl)
  ]

  last_alone :
      (capacity : ℤ) (id : Str) (payload : P)
      → capacity ≢ pos 0
      → last_payload (put_contents capacity id payload []) ≡ some payload
  unfolding put_contents last_payload lookup
  last_alone capacity id payload some_room = elim (Bool-cases (eqb_ℤ (pos 0) capacity)) [
    | inl full ↦ absurd (some_room (sym ((eqb_ℤ_iff _ _).0 full)))
    | inr free ↦ rw (free) refl
  ]

  -- On a valid cache of a capacity other than 0 a `Put` beside a `Clear` returns, and `GetOldest`
  -- then gives nothing if the `Put` came before the `Clear`, and its payload if it came after; if it
  -- came between the two assignments, `GetOldest` panics.
  pub clear_with_put-get_oldest :
      (moment : Moment) (id : Str) (payload : P) (l : LruCache P)
      → IsValid l
      → l.capacity ≢ pos 0
      → (l' : LruCache P) × (clear_with_put moment id payload l ≡ returns l')
        × (get_oldest l' ≡ oldest_after moment payload)
  unfolding clear_with_put get_oldest put push_front back lookup insert clear view
  clear_with_put-get_oldest before id payload l v some_room =
      let (l', e, becomes) = put-Becomes v id payload some_room in
      (clear_queue (clear_entries l'), rw (e) refl, refl)
  clear_with_put-get_oldest between id payload l v some_room =
      let (m, made, none_left) = room_in_between l some_room in
      (
        clear_queue (push_front id (record { identifier = id; payload = payload }) m),
        rw (made) refl,
        rw (none_left) refl,
      )
  clear_with_put-get_oldest after id payload l v some_room =
      let (m, e, becomes) = put-Becomes (clear-Becomes v).valid id payload some_room in
      (
        m,
        rw (e) refl,
        get_oldest-contents becomes.valid
            ∙ ap (λ es. returns (last_payload es)) becomes.holds
            ∙ ap returns (last_alone l.capacity id payload some_room),
      )
