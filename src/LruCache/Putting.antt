-- ===== src/LruCache/Putting.antt =====
-- `Put` of internal/lrucache/lrucache.go, on every valid cache of a capacity other than 0.
use cel_service.Base.Dict.{lookup, delete, lookup-delete}
use cel_service.Base.Int.{ℤ, pos, negsuc, eqb_ℤ, eqb_ℤ_iff}
use cel_service.Base.Text.{Str}
use cel_service.Base.{
  ℕ, suc, ◌≡◌, ◌≢◌, subst, refl, sym, ◌∙◌, ap, arith, true, false, none, some, ◌∷◌, length, inl,
  inr, if◌then◌else◌, Option-cases, Bool-cases, returns,
}
use cel_service.LruCache.Located.{Located, addr_of-back, delete-back, back-none, drop_last}
use cel_service.LruCache.Queue.{view, lookup-view-none, length-view, find_node-remove_node_self}
use cel_service.LruCache.Refine.{
  contents, put_contents, Becomes, relocate-Becomes, unlink-Becomes, set_value_absent,
}
use cel_service.LruCache.Valid.{Fits, IsValid, locate_entry, length-unlink, push-IsLinked}
use cel_service.LruCache.{
  LruEntry, Element, LruCache, remove_node, move_to_front, set_value, back, make_room, push_front,
  put,
}

Fits-suc : (n : ℕ) (c : ℤ) → eqb_ℤ (pos n) c ≡ false → Fits n c → Fits (suc n) c
Fits-suc n (pos k) e f = ground arith
Fits-suc n (negsuc k) e f = tt

module _ {ℓ} {P : Type ℓ} {l : LruCache P} (v : IsValid l) where
  open l use {capacity, queue, entries}

  -- What `Put` needs of `make_room`: a place for one more entry.
  record Room (l' : LruCache P) : Type ℓ where
    becomes :
        Becomes l l' (
          if eqb_ℤ (pos (length (contents l))) capacity then drop_last (contents l) else contents l)
    free : Fits (suc (length l'.queue)) capacity
    still : (id : Str) → lookup id entries ≡ none → lookup id l'.entries ≡ none

  evict :
      (b : Element P)
      → eqb_ℤ (pos (length queue)) capacity ≡ true
      → back queue ≡ some b
      → (l' : LruCache P) × (make_room l ≡ returns l') × Room l'
  unfolding make_room
  evict b full e =
      let id = b.value.identifier in
      let at : lookup id entries ≡ some b.addr =
        v.links.linked id ∙ addr_of-back b queue v.links.ids e in
      let (n, t) = locate_entry v.links id b.addr at in
      let same : pos (length queue) ≡ capacity = (eqb_ℤ_iff _ _).0 full in
      let gone = unlink-Becomes v id b.addr n t at in
      (
        record l { entries = delete id entries; queue = remove_node b.addr queue },
        rw (full, e),
        record {
          becomes = record {
            valid = gone.valid;
            same_capacity = refl;
            holds = rw (length-view, full) (gone.holds ∙ delete-back b queue v.links.ids e);
          };
          free =
              subst (Fits (suc (length (remove_node b.addr queue)))) same
                (omega (arith, length-unlink v.links id b.addr n t at));
          still = λ j absent. ground (arith, lookup-delete id j entries);
        },
      )

  make_room-Room : capacity ≢ pos 0 → (l' : LruCache P) × (make_room l ≡ returns l') × Room l'
  make_room-Room some_room = elim (Bool-cases (eqb_ℤ (pos (length queue)) capacity)) [
    | inl full ↦ elim (Option-cases (back queue)) [
      | inl empty ↦ absurd (
          some_room
            (sym ((eqb_ℤ_iff _ _).0 full) ∙ ap (λ q. pos (length q)) (back-none queue empty)))
      | inr (b, e) ↦ evict b full e
    ]
    | inr free ↦ (
      l,
      unfold make_room in rw free,
      record {
        becomes = record { valid = v; same_capacity = refl; holds = rw (length-view, free) };
        free = Fits-suc (length queue) capacity free v.fits;
        still = λ j absent. absent;
      },
    )
  ]

  pub miss_contents : (id : Str) → lookup id entries ≡ none → lookup id (contents l) ≡ none
  miss_contents id e = lookup-view-none id queue (sym (v.links.linked id) ∙ e)

  -- The queue of a hit after `MoveToFront` and a write to the element.
  pub moved :
      (id : Str) (p : ℕ) (n : Element P)
      → Located id p queue n
      → move_to_front p queue ≡ n ∷ remove_node p queue
  unfolding move_to_front
  moved id p n t = ground (arith, t.found)

  written :
      (id : Str) (p : ℕ) (n : Element P) (e : LruEntry P)
      → Located id p queue n
      → set_value p e (move_to_front p queue)
        ≡ record { addr = n.addr; value = e } ∷ remove_node p queue
  unfolding set_value
  written id p n e t = rw (moved id p n t) (
      ground (
        arith,
        t.at_p,
        set_value_absent p e (remove_node p queue),
        find_node-remove_node_self p queue,
      ))

  put_hit :
      (id : Str) (payload : P) (p : ℕ) (n : Element P)
      → Located id p queue n
      → lookup id entries ≡ some p
      → (l' : LruCache P) × (put id payload l ≡ returns (l', true))
        × Becomes l l' (put_contents capacity id payload (contents l))
  unfolding put put_contents
  put_hit id payload p n t e =
      let entry : LruEntry P = record { identifier = id; payload = payload } in
      (
        record l { queue = record { addr = n.addr; value = entry } ∷ remove_node p queue },
        ground (arith, written id p n entry t),
        rw (t.visible, put_contents) (relocate-Becomes v id p n payload t e),
      )

  put_miss :
      (id : Str) (payload : P)
      → capacity ≢ pos 0
      → lookup id entries ≡ none
      → (l' : LruCache P) × (put id payload l ≡ returns (l', true))
        × Becomes l l' (put_contents capacity id payload (contents l))
  unfolding put put_contents push_front view
  put_miss id payload some_room e =
      let (m, made, room) = make_room-Room some_room in
      (
        push_front id (record { identifier = id; payload = payload }) m,
        ground (arith, made),
        rw (miss_contents id e, put_contents)
            (record {
              valid = record {
                links = push-IsLinked room.becomes.valid.links id payload (room.still id e);
                fits = rw room.becomes.same_capacity room.free;
              };
              same_capacity = room.becomes.same_capacity;
              holds = ap (◌∷◌ (id, payload)) room.becomes.holds;
            }),
      )

  pub put-Becomes :
      (id : Str) (payload : P)
      → capacity ≢ pos 0
      → (l' : LruCache P) × (put id payload l ≡ returns (l', true))
        × Becomes l l' (put_contents capacity id payload (contents l))
  put-Becomes id payload some_room = elim (Option-cases (lookup id entries)) [
    | inl e ↦ put_miss id payload some_room e
    | inr (p, e) ↦ let (n, t) = locate_entry v.links id p e in put_hit id payload p n t e
  ]
