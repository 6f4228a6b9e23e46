-- ===== src/Middleware/Identity/Answers.antt =====
-- What the identity cache answers after an entry was set.
use ts_restic_server.Common.{
  ℕ, ◌+◌, ◌≡◌, refl, inl, inr, false, none, some, List, [], ◌∷◌, leb, ltb, length, if◌then◌else◌,
  Bool-cases, ◌∙◌, sym, Bool, true, ◌&&◌, Option-cases,
}
use ts_restic_server.Common.Text.{Bytes, eqs}
use ts_restic_server.Common.Dict.{Dict, get, remove, get-put, get-remove}
use ts_restic_server.Middleware.Identity.Coherent.{IsCoherent, drop_entry-IsReady}
use ts_restic_server.Middleware.Identity.Order.{by_key, by_key-remove_element, length-by_key}
use ts_restic_server.Common.Unique.{get-has, remove_absent}
use ts_restic_server.Middleware.Identity.{
  Element, Cache, cache_get, drop_entry, evict_front, make_room, push_back, cache_set,
}

module _ {A : Type 0} where
  -- Whether a queue of entries, the oldest first, that has reached its bound loses the one of a key.
  abbrev pub is_evicted : ℕ → Dict (Element A) → Bytes → Bool
  is_evicted max_size [] j = false
  is_evicted max_size ((k, e) ∷ d) j = leb max_size (length ((k, e) ∷ d)) && eqs k j

  -- The queue without a key is the list of a cache that has dropped it.
  by_key-drop_entry :
      (c : Cache A) (ip : Bytes)
      → IsCoherent c
      → by_key (drop_entry c ip (get c.entries ip)).order ≡ remove (by_key c.order) ip
  by_key-drop_entry c ip h = elim (Option-cases (get c.entries ip)) [
    | inl nothing ↦ rw nothing (
        sym (
          remove_absent (by_key c.order) ip
            (get-has (by_key c.order) ip (sym (h.agree ip) ∙ nothing))))
    | inr (e, found) ↦
        rw found (by_key-remove_element c.order ip e h.apart h.keys (sym (h.agree ip) ∙ found))
  ]

  drop_entry-rest :
      (c : Cache A) (ip : Bytes)
      → ((drop_entry c ip (get c.entries ip)).ttl ≡ c.ttl)
        × ((drop_entry c ip (get c.entries ip)).max_size ≡ c.max_size)
        × ((j : Bytes)
            → eqs ip j ≡ false
            → get (drop_entry c ip (get c.entries ip)).entries j ≡ get c.entries j)
  drop_entry-rest c ip = elim (Option-cases (get c.entries ip)) [
    | inl nothing ↦ rw nothing (refl, refl, λ j other. refl)
    | inr (e, found) ↦ rw found (refl, refl, λ j other. rw (get-remove c.entries ip j, other) refl)
  ]

  make_room-rest :
      (c : Cache A)
      → length c.entries ≡ length c.order
      → ((make_room c).ttl ≡ c.ttl)
        × ((j : Bytes)
            → get (make_room c).entries j
              ≡ (if is_evicted c.max_size (by_key c.order) j then none else get c.entries j))
  make_room-rest c equal = rw equal (from_front c.order)
    where
      room : List (Element A) → Cache A
      room es = if leb c.max_size (length es) then evict_front c es else c

      from_front :
          (es : List (Element A))
          → ((room es).ttl ≡ c.ttl)
            × ((j : Bytes)
                → get (room es).entries j
                  ≡ (if is_evicted c.max_size (by_key es) j then none else get c.entries j))
      from_front [] = elim (Bool-cases (leb c.max_size 0)) [
        | inl full ↦ rw full (refl, λ j. refl)
        | inr free ↦ rw free (refl, λ j. refl)
      ]
      from_front (e ∷ es) = elim (Bool-cases (leb c.max_size (length (e ∷ es)))) [
        | inl full ↦ rw (length-by_key es, full) (refl, λ j. get-remove c.entries e.item.key j)
        | inr free ↦ rw (length-by_key es, free) (refl, λ j. refl)
      ]

  cache_get-push_back :
      (c : Cache A) (now later : ℕ) (ip j : Bytes) (a : A)
      → cache_get (push_back c now ip a) later j ≡ (
          if eqs ip j
          then (if ltb (now + c.ttl) later then none else some a)
          else cache_get c later j)
  unfolding cache_get
  cache_get-push_back c now later ip j a =
      let e : Element A = record {
        address = c.next;
        item = record { key = ip; payload = a; expiry = now + c.ttl };
      } in
      rw (get-put c.entries ip j e)
        (elim (Bool-cases (eqs ip j)) [ inl same ↦ rw same | inr other ↦ rw other ])

  cache_get-lost :
      (c c' : Cache A) (later : ℕ) (j : Bytes) (lost : Bool)
      → get c'.entries j ≡ (if lost then none else get c.entries j)
      → cache_get c' later j ≡ (if lost then none else cache_get c later j)
  unfolding cache_get
  cache_get-lost c c' later j true e = rw e refl
  cache_get-lost c c' later j false e = rw e refl

  -- After an entry is set, its address is answered with its payload until it expires. Of the others,
  -- the one whose entry is the oldest is no longer answered if they have reached the bound, and each
  -- other one is answered as before.
  pub cache_get-cache_set :
      (c : Cache A) (now later : ℕ) (ip j : Bytes) (a : A)
      → IsCoherent c
      → cache_get (cache_set c now ip a) later j ≡ (
          if eqs ip j
          then (if ltb (now + c.ttl) later then none else some a)
          else if is_evicted c.max_size (remove (by_key c.order) ip) j
          then none
          else cache_get c later j)
  cache_get-cache_set c now later ip j a h =
      let dropped = drop_entry c ip (get c.entries ip) in
      let (ttl, max_size, entries) = drop_entry-rest c ip in
      let (ready, _) = drop_entry-IsReady c ip h in
      let (ttl', entries') = make_room-rest dropped ready.coherent.equal in
      unfold cache_set in
      rw (cache_get-push_back (make_room dropped) now later ip j a) (elim (Bool-cases (eqs ip j)) [
        | inl same ↦ rw (same, ttl', ttl) refl
        | inr other ↦ rw other (
            cache_get-lost c (make_room dropped) later j
              (is_evicted c.max_size (remove (by_key c.order) ip) j)
              (rw (entries' j, max_size, by_key-drop_entry c ip h, entries j other) refl))
      ])
