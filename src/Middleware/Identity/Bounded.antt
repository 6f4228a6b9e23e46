-- ===== src/Middleware/Identity/Bounded.antt =====
-- The size of the identity cache: it has not more entries than its bound.
use ts_restic_server.Common.{
  ℕ, ◌≤◌, ◌<◌, ◌≡◌, refl, inl, inr, Option, none, some, List, [], ◌∷◌, arith, leb, length,
  Bool-cases, ◌∙◌,
}
use ts_restic_server.Common.Text.{Bytes}
use ts_restic_server.Common.Dict.{get}
use ts_restic_server.Middleware.Identity.{
  Element, Cache, new_cache, drop_entry, evict_front, make_room, cache_set,
}
use ts_restic_server.Middleware.Identity.Coherent.{
  IsCoherent, drop_entry-IsReady, make_room-IsReady, push_back-IsCoherent,
}

module _ {A : Type 0} where
  -- What the bound of the cache says of it.
  pub record IsBounded (c : Cache A) : Type 0 where
    pub coherent : IsCoherent c
    pub some_room : 0 < c.max_size
    pub bound : length c.entries ≤ c.max_size

  max_size-drop_entry :
      (c : Cache A) (ip : Bytes) (o : Option (Element A))
      → (drop_entry c ip o).max_size ≡ c.max_size
  max_size-drop_entry c ip none = refl
  max_size-drop_entry c ip (some e) = refl

  max_size-make_room : (c : Cache A) → (make_room c).max_size ≡ c.max_size
  max_size-make_room c = elim (Bool-cases (leb c.max_size (length c.entries))) [
    | inl full ↦ rw (full, make_room) (go c.order)
    | inr free ↦ rw (free, make_room)
  ]
    where
      go : (es : List (Element A)) → (evict_front c es).max_size ≡ c.max_size
      go [] = refl
      go (e ∷ es) = refl

  cache_set-IsBounded :
      (c : Cache A) (now : ℕ) (ip : Bytes) (a : A) → IsBounded c → IsBounded (cache_set c now ip a)
  unfolding cache_set
  cache_set-IsBounded c now ip a h =
      let dropped = drop_entry c ip (get c.entries ip) in
      let same = max_size-drop_entry c ip (get c.entries ip) in
      let same' = max_size-make_room dropped in
      let (ready, fewer) = drop_entry-IsReady c ip h.coherent in
      let (ready', room) =
        make_room-IsReady dropped ip ready (omega (arith, same, h.some_room))
          (omega (arith, same, fewer, h.bound)) in
      let (coherent, more) = push_back-IsCoherent (make_room dropped) now ip a ready' in
      record {
        coherent = coherent;
        some_room = omega (arith, same, same', h.some_room);
        bound = omega (arith, same, same', more, room);
      }

  -- The calls of Set, each with its time.
  abbrev pub set_all : Cache A → List (ℕ × Bytes × A) → Cache A
  set_all c [] = c
  set_all c ((now, ip, a) ∷ calls) = set_all (cache_set c now ip a) calls

  set_all-IsBounded :
      (c : Cache A) (calls : List (ℕ × Bytes × A)) → IsBounded c → IsBounded (set_all c calls)
  set_all-IsBounded c [] h = h
  set_all-IsBounded c ((now, ip, a) ∷ calls) h =
      set_all-IsBounded (cache_set c now ip a) calls (cache_set-IsBounded c now ip a h)

  new_cache-IsBounded :
      (ttl max_size : ℕ) → 0 < max_size → IsBounded (new_cache {A = A} ttl max_size)
  unfolding new_cache
  new_cache-IsBounded ttl max_size pos = record {
    coherent = record {
      unique = tt;
      keys = tt;
      agree = λ j. refl;
      apart = tt;
      older = tt;
      equal = refl;
    };
    some_room = pos;
    bound = omega arith;
  }

  max_size-set_all :
      (c : Cache A) (calls : List (ℕ × Bytes × A)) → (set_all c calls).max_size ≡ c.max_size
  unfolding cache_set
  max_size-set_all c [] = refl
  max_size-set_all c ((now, ip, a) ∷ calls) =
      max_size-set_all (cache_set c now ip a) calls
      ∙ (max_size-make_room (drop_entry c ip (get c.entries ip))
          ∙ max_size-drop_entry c ip (get c.entries ip))

  -- A new cache stays coherent.
  pub set_all-IsCoherent :
      (ttl max_size : ℕ) (calls : List (ℕ × Bytes × A))
      → 0 < max_size
      → IsCoherent (set_all (new_cache {A = A} ttl max_size) calls)
  set_all-IsCoherent ttl max_size calls pos =
      let h =
        set_all-IsBounded (new_cache {A = A} ttl max_size) calls
          (new_cache-IsBounded ttl max_size pos) in
      h.coherent

  -- Whatever is set in a new cache with a positive bound, it never has more entries than the bound, and
  -- its list has as many elements as its map has entries.
  pub cache_within_bound :
      (ttl max_size : ℕ) (calls : List (ℕ × Bytes × A))
      → 0 < max_size
      → (length (set_all (new_cache {A = A} ttl max_size) calls).entries ≤ max_size)
        × (length (set_all (new_cache {A = A} ttl max_size) calls).entries
            ≡ length (set_all (new_cache {A = A} ttl max_size) calls).order)
  unfolding new_cache
  cache_within_bound ttl max_size calls pos =
      let c = new_cache {A = A} ttl max_size in
      let h = set_all-IsBounded c calls (new_cache-IsBounded ttl max_size pos) in
      (omega (arith, h.bound, max_size-set_all c calls), h.coherent.equal)
