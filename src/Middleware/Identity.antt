-- ===== src/Middleware/Identity.antt =====
-- internal/middleware/identity.go: who the client is. The rDNS and the WhoIs cache are the same code
-- over different payloads, here one cache over a payload A. Times are numbers; the resolver and the
-- WhoIs call are functions from the address to their answer.
pub mod Answers
pub mod Order
pub mod Coherent
pub mod Bounded
use ts_restic_server.Common.{
  ℕ, suc, ◌+◌, Bool, true, false, ◌&&◌, ◌||◌, not, Option, none, some, List, [], ◌∷◌, ◌++◌, ◌==◌,
  ltb, leb, length, if◌then◌else◌,
}
use ts_restic_server.Common.Text.{Bytes, codes, cut, ends_with}
use ts_restic_server.Common.Dict.{Dict, get, put, remove}
use ts_restic_server.Acl.{is_empty}
use ts_restic_server.Http.{WhoIsResult, Request, Handler}

-- rdnsCacheItem and whoIsCacheItem
pub record Item (A : Type 0) : Type 0 where
  pub key : Bytes
  pub payload : A
  pub expiry : ℕ

-- A *list.Element: its address, and the item that it never changes.
pub record Element (A : Type 0) : Type 0 where
  pub address : ℕ
  pub item : Item A

-- rdnsCache and whoIsCache, with the address of the next element
pub record Cache (A : Type 0) : Type 0 where
  pub entries : Dict (Element A)
  pub order : List (Element A)
  pub ttl : ℕ
  pub max_size : ℕ
  pub next : ℕ

module _ {A : Type 0} where
  -- newRDNSCache, newWhoIsCache
  unfoldable pub new_cache : ℕ → ℕ → Cache A
  new_cache ttl max_size = record {
    entries = [];
    order = [];
    ttl = ttl;
    max_size = max_size;
    next = 0;
  }

  abbrev pub fresh_payload : ℕ → Option (Element A) → Option A
  fresh_payload now none = none
  fresh_payload now (some e) = if ltb e.item.expiry now then none else some e.item.payload

  -- Get at the time `now`
  unfoldable pub cache_get : Cache A → ℕ → Bytes → Option A
  cache_get c now ip = fresh_payload now (get c.entries ip)

  -- list.List.Remove
  unfoldable pub remove_element : ℕ → List (Element A) → List (Element A)
  remove_element address [] = []
  remove_element address (e ∷ es) =
      let rest = remove_element address es in if e.address == address then rest else e ∷ rest

  -- the part of Set that drops an entry of the same key
  abbrev pub drop_entry : Cache A → Bytes → Option (Element A) → Cache A
  drop_entry c ip none = c
  drop_entry c ip (some e) = record c {
    entries = remove c.entries ip;
    order = remove_element e.address c.order;
  }

  -- the part of Set that makes room: the front of the order is evicted
  abbrev pub evict_front : Cache A → List (Element A) → Cache A
  evict_front c [] = c
  evict_front c (e ∷ es) = record c {
    entries = remove c.entries e.item.key;
    order = remove_element e.address c.order;
  }

  abbrev pub make_room : Cache A → Cache A
  make_room c = if leb c.max_size (length c.entries) then evict_front c c.order else c

  abbrev pub push_back : Cache A → ℕ → Bytes → A → Cache A
  push_back c now ip a =
      let e : Element A = record {
        address = c.next;
        item = record { key = ip; payload = a; expiry = now + c.ttl };
      } in
      record c { entries = put c.entries ip e; order = c.order ++ e ∷ []; next = suc c.next }

  -- Set at the time `now`
  unfoldable pub cache_set : Cache A → ℕ → Bytes → A → Cache A
  unfolding remove_element
  cache_set c now ip a = push_back (make_room (drop_entry c ip (get c.entries ip))) now ip a

-- the first labels of the host names, where they are not empty
abbrev pub short_name : Option (Bytes × Bytes) → List Bytes
short_name none = []
short_name (some (short, rest)) = if is_empty short then [] else short ∷ []

abbrev pub short_names : List Bytes → List Bytes
short_names [] = []
short_names (h ∷ hs) = short_name (cut b'.' h) ++ short_names hs

-- buildIdentifiers
unfoldable pub build_identifiers : Bytes → List Bytes → Bool → List Bytes
build_identifiers ip hostnames include_short =
    ip ∷ (hostnames ++ (if include_short then short_names hostnames else []))

abbrev pub unless_empty : Bytes → List Bytes
unless_empty s = if is_empty s then [] else s ∷ []

-- buildWhoIsIdentifiers
unfoldable pub build_who_is_identifiers : Bytes → WhoIsResult → List Bytes
build_who_is_identifiers ip r =
    ip
    ∷ (unless_empty r.fqdn ++ (unless_empty r.short_name ++ (unless_empty r.login_name ++ r.tags)))

-- strings.TrimSuffix(name, ".")
unfoldable pub trim_dot : Bytes → Bytes
trim_dot [] = []
trim_dot (c ∷ []) = if c == b'.' then [] else c ∷ []
trim_dot (c ∷ d ∷ s) = c ∷ trim_dot (d ∷ s)

-- the loop over the names of an rDNS answer
unfoldable pub host_names : List Bytes → List Bytes
unfolding trim_dot
host_names [] = []
host_names (name ∷ names) = unless_empty (trim_dot name) ++ host_names names

-- The state of a server with a cache, and a request at the time `now`.
abbrev pub set_identity : Request → List Bytes → Request
set_identity c ids = record c { identities = ids }

module _ (now : ℕ) where
  -- the cases of RDNSIdentity: a cached answer, and a lookup, which fails with `none`
  abbrev pub rdns_lookup :
      Bool
      → Option (List Bytes)
      → Option (List Bytes)
      → Bytes
      → Cache (List Bytes)
      → List Bytes × Cache (List Bytes)
  rdns_lookup short (some hostnames) answer ip cache = (build_identifiers ip hostnames short, cache)
  rdns_lookup short none none ip cache = (ip ∷ [], cache_set cache now ip [])
  rdns_lookup short none (some names) ip cache =
      (build_identifiers ip (host_names names) short, cache_set cache now ip (host_names names))

module _ {S : Type 0} (now : ℕ) where
  -- RDNSIdentity around the handler `next`
  unfoldable pub rdns_identity :
      (Bytes → Option (List Bytes)) → Bool → Handler S → Handler (Cache (List Bytes) × S)
  rdns_identity lookup_addr short next c (cache, s) =
      let (ids, cache') =
        rdns_lookup now short (cache_get cache now c.real_ip) (lookup_addr c.real_ip) c.real_ip
          cache in
      let (answer, s') = next (set_identity c ids) s in (answer, (cache', s'))

abbrev pub WhoIsAnswer : Type 0
WhoIsAnswer = List Bytes × Option WhoIsResult

abbrev pub with_who_is : Request → WhoIsAnswer → Request
with_who_is c (ids, none) = set_identity c ids
with_who_is c (ids, some r) = record c { identities = ids; who_is = some r }

module _ (now : ℕ) where
  abbrev pub who_is_lookup :
      Option WhoIsAnswer
      → Option WhoIsResult
      → Bytes
      → Cache WhoIsAnswer
      → WhoIsAnswer × Cache WhoIsAnswer
  who_is_lookup (some cached) answer ip cache = (cached, cache)
  who_is_lookup none none ip cache = ((ip ∷ [], none), cache_set cache now ip (ip ∷ [], none))
  who_is_lookup none (some r) ip cache =
      let a : WhoIsAnswer = (build_who_is_identifiers ip r, some r) in (a, cache_set cache now ip a)

module _ {S : Type 0} (now : ℕ) where
  -- WhoIsIdentity around the handler `next`
  unfoldable pub who_is_identity :
      (Bytes → Option WhoIsResult) → Handler S → Handler (Cache WhoIsAnswer × S)
  who_is_identity who_is next c (cache, s) =
      let (found, cache') =
        who_is_lookup now (cache_get cache now c.real_ip) (who_is c.remote_addr) c.real_ip cache in
      let (answer, s') = next (with_who_is c found) s in (answer, (cache', s'))

-- PlainIdentity
unfoldable pub plain_identity : {S : Type 0} → Handler S → Handler S
plain_identity next c s = next (set_identity c (c.real_ip ∷ [])) s
