-- ===== src/Middleware/Identity/Coherent.antt =====
-- The map and the list of the identity cache hold the same entries, through the parts of Set.
use ts_restic_server.Common.{
  ℕ, suc, ◌+◌, ◌≤◌, ◌<◌, ◌≡◌, refl, ◌≢◌, inl, inr, true, false, none, some, List, [], ◌∷◌, ◌++◌,
  arith, leb, length, length-append, All, All-append, Bool-cases, Option-cases, ap, ◌∙◌, sym,
  leb→le,
}
use ts_restic_server.Common.Text.{Bytes, eqs_iff}
use ts_restic_server.Common.Dict.{
  get, put, remove, has, get-put, get-remove, IsUnique, remove-IsUnique, put-IsUnique,
}
use ts_restic_server.Middleware.Identity.{
  Element, Cache, remove_element, drop_entry, evict_front, make_room, push_back,
}
use ts_restic_server.Common.Unique.{get-has, remove_absent, length-remove, get-snoc, snoc-IsUnique}
use ts_restic_server.Middleware.Identity.Order.{
  by_key, AreApart, by_key-append, length-by_key, All-remove_element, remove_element-AreApart,
  by_key-remove_element,
}

module _ {A : Type 0} where
  -- The map and the list of the cache hold the same elements, each under its key and with an address of
  -- its own.
  pub record IsCoherent (c : Cache A) : Type 0 where
    pub unique : IsUnique c.entries
    pub keys : IsUnique (by_key c.order)
    pub agree : (j : Bytes) → get c.entries j ≡ get (by_key c.order) j
    pub apart : AreApart c.order
    pub older : All (λ e. e.address < c.next) c.order
    pub equal : length c.entries ≡ length c.order

  abbrev pub without : Cache A → Bytes → Element A → Cache A
  without c k e = record c {
    entries = remove c.entries k;
    order = remove_element e.address c.order;
  }

  pub without-length :
      (c : Cache A) (k : Bytes) (e : Element A)
      → IsCoherent c
      → get c.entries k ≡ some e
      → (suc (length (without c k e).entries) ≡ length c.entries)
        × (suc (length (without c k e).order) ≡ length c.order)
  without-length c k e h found =
      let listed : get (by_key c.order) k ≡ some e = sym (h.agree k) ∙ found in
      (
        length-remove c.entries k e h.unique found,
        omega (
          arith,
          length-remove (by_key c.order) k e h.keys listed,
          ap length (by_key-remove_element c.order k e h.apart h.keys listed),
          length-by_key (remove_element e.address c.order),
          length-by_key c.order,
        ),
      )

  pub without-IsCoherent :
      (c : Cache A) (k : Bytes) (e : Element A)
      → IsCoherent c
      → get c.entries k ≡ some e
      → IsCoherent (without c k e)
  without-IsCoherent c k e h found =
      let listed : get (by_key c.order) k ≡ some e = sym (h.agree k) ∙ found in
      let same = by_key-remove_element c.order k e h.apart h.keys listed in
      let (fewer, fewer_listed) = without-length c k e h found in
      record {
        unique = remove-IsUnique c.entries k h.unique;
        keys = rw same (remove-IsUnique (by_key c.order) k h.keys);
        agree =
            λ j. rw (same, get-remove c.entries k j, get-remove (by_key c.order) k j, h.agree j);
        apart = remove_element-AreApart e.address c.order h.apart;
        older = All-remove_element (λ x. x.address < c.next) e.address c.order h.older;
        equal = omega (arith, fewer, fewer_listed, h.equal);
      }

  -- A cache that has no entry of a key, and not more than a number of entries.
  pub record IsReady (ip : Bytes) (c : Cache A) : Type 0 where
    pub coherent : IsCoherent c
    pub absent : get c.entries ip ≡ none

  pub drop_entry-IsReady :
      (c : Cache A) (ip : Bytes)
      → IsCoherent c
      → IsReady ip (drop_entry c ip (get c.entries ip))
        × (length (drop_entry c ip (get c.entries ip)).entries ≤ length c.entries)
  drop_entry-IsReady c ip h = elim (Option-cases (get c.entries ip)) [
    | inl nothing ↦ rw nothing (record { coherent = h; absent = nothing }, omega arith)
    | inr (e, found) ↦ rw found (
      record {
        coherent = without-IsCoherent c ip e h found;
        absent = ground (arith, get-remove c.entries ip ip, eqs_iff ip ip);
      },
      omega (arith, (without-length c ip e h found).0),
    )
  ]

  pub make_room-IsReady :
      (c : Cache A) (ip : Bytes)
      → IsReady ip c
      → 0 < c.max_size
      → length c.entries ≤ c.max_size
      → IsReady ip (make_room c) × (length (make_room c).entries < c.max_size)
  make_room-IsReady c ip r pos bound = elim (Bool-cases (leb c.max_size (length c.entries))) [
    | inl full ↦ rw (full, make_room) (evicted full c.order refl)
    | inr free ↦ rw (free, make_room) (r, ground arith)
  ]
    where
      evicted :
          leb c.max_size (length c.entries) ≡ true
          → (es : List (Element A)) → c.order ≡ es
          → IsReady ip (evict_front c es) × (length (evict_front c es).entries < c.max_size)
      evicted full [] e =
          absurd (omega (arith, leb→le _ _ full, r.coherent.equal, ap length e, pos))
      evicted full (e ∷ es) same =
          let k = e.item.key in
          let found : get c.entries k ≡ some e =
            r.coherent.agree k ∙ (rw same (unfold get in rw ((eqs_iff k k).1 refl))) in
          (
            record {
              coherent = without-IsCoherent c k e r.coherent found;
              absent = ground (arith, get-remove c.entries k ip, r.absent);
            },
            omega (arith, (without-length c k e r.coherent found).0, bound),
          )

  pub All-below :
      (n : ℕ) (es : List (Element A))
      → All (λ e. e.address < n) es
      → All (λ e. e.address < suc n) es
  All-below n [] h = tt
  All-below n (e ∷ es) (lt, h) = (omega (arith, lt), All-below n es h)

  pub snoc-AreApart :
      (n : ℕ) (es : List (Element A)) (e : Element A)
      → e.address ≡ n
      → All (λ x. x.address < n) es
      → AreApart es
      → AreApart (es ++ e ∷ [])
  snoc-AreApart n [] e same h u = (tt, tt)
  snoc-AreApart n (x ∷ es) e same (lt, h) (apart, u) = (
    All-append (λ y. y.address ≢ x.address) es (e ∷ []) apart
        ((λ s. omega (arith, lt, same, s)), tt),
    snoc-AreApart n es e same h u,
  )

  pub push_back-IsCoherent :
      (c : Cache A) (now : ℕ) (ip : Bytes) (a : A)
      → IsReady ip c
      → IsCoherent (push_back c now ip a)
        × (length (push_back c now ip a).entries ≡ suc (length c.entries))
  push_back-IsCoherent c now ip a r =
      let h = r.coherent in
      let e : Element A = record {
        address = c.next;
        item = record { key = ip; payload = a; expiry = now + c.ttl };
      } in
      let absent : has (by_key c.order) ip ≡ false =
        get-has (by_key c.order) ip (sym (h.agree ip) ∙ r.absent) in
      let more : length (put c.entries ip e) ≡ suc (length c.entries) =
        unfold put in
        ap (λ d. suc (length d)) (remove_absent c.entries ip (get-has c.entries ip r.absent)) in
      let longer : length (c.order ++ e ∷ []) ≡ suc (length c.order) =
        omega (arith, length-append c.order (e ∷ [])) in
      (
        record {
          unique = put-IsUnique c.entries ip e h.unique;
          keys =
              rw (by_key-append c.order (e ∷ []))
                (snoc-IsUnique (by_key c.order) ip e absent h.keys);
          agree = λ j. rw (
            by_key-append c.order (e ∷ []),
            get-put c.entries ip j e,
            get-snoc (by_key c.order) ip j e absent,
            h.agree j,
          );
          apart = snoc-AreApart c.next c.order e refl h.older h.apart;
          older =
              All-append (λ x. x.address < suc c.next) c.order (e ∷ [])
                (All-below c.next c.order h.older) (omega arith, tt);
          equal = omega (arith, more, longer, h.equal);
        },
        more,
      )
