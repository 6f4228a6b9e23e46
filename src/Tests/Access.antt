-- ===== src/Tests/Access.antt =====
-- Tests of internal/acl, and of the repository prefix and the identity cache of
-- internal/middleware.
use ts_restic_server.Common.{
  String, ℕ, ◌+◌, ◌<◌, ◌≤◌, length, ◌≡◌, refl, ◌⊎◌, inl, inr, true, false, none, some, List, [],
  ◌∷◌, ltb, arith, if◌then◌else◌,
}
use ts_restic_server.Common.Text.{
  Bytes, codes, eqs, has_prefix, ends_with, join, trim_left, trim_right, count_byte,
}
use ts_restic_server.Common.Dict.{get, put}
use ts_restic_server.Acl.{
  Permission, deny, read_only, full_access, rank, Rule, Engine, slash, normalize_path,
  segment_count, match_path, match_identity, resolve,
}
use ts_restic_server.Acl.Paths.{IsSegment, path_of, is_prefix, slashes, match_path-path_of}
use ts_restic_server.Acl.Resolve.{outcome, strongest, resolve_lem, resolve_deny_first}
use ts_restic_server.Http.{Request, no_content, reply, Handler}
use ts_restic_server.Middleware.RepoPrefix.{
  traversal, known_segment, split_repo_path, split_known, rewrite_path, repo_prefix,
}
use ts_restic_server.Middleware.RepoPrefix.Segments.{IsRewritten, rewrite_path-IsRewritten}
use ts_restic_server.Middleware.Access.{acl}
use ts_restic_server.Middleware.Chain.{IsRefused, IsHandedOn, guarded}
use ts_restic_server.Middleware.Identity.{Cache, new_cache, cache_get, cache_set}
use ts_restic_server.Middleware.Identity.Bounded.{set_all, set_all-IsCoherent, cache_within_bound}
use ts_restic_server.Middleware.Identity.Coherent.{IsCoherent}
use ts_restic_server.Middleware.Identity.Order.{by_key}
use ts_restic_server.Common.Dict.{remove}
use ts_restic_server.Middleware.Identity.Answers.{is_evicted, cache_get-cache_set}

abbrev rule_for : String → Permission → Rule
rule_for path p = record { paths = codes path ∷ []; identities = codes "*" ∷ []; permission = p }

-- Two rules at one level, Deny first and Deny last.
abbrev deny_first : Engine
deny_first = record {
  default_perm = deny;
  rules = rule_for "/a" deny ∷ rule_for "/a" full_access ∷ rule_for "/" read_only ∷ [];
}

abbrev deny_last : Engine
deny_last = record {
  default_perm = deny;
  rules = rule_for "/a" full_access ∷ rule_for "/a" deny ∷ [];
}

abbrev anyone : List Bytes
anyone = codes "10.0.0.1" ∷ []

overridden : resolve deny_first anyone (codes "/a/b") ≡ full_access
unfolding resolve match_path segment_count eqs has_prefix trim_left trim_right count_byte
overridden = refl

absolute : resolve deny_last anyone (codes "/a/b") ≡ deny
unfolding resolve match_path segment_count eqs has_prefix trim_left trim_right count_byte
absolute = refl

elsewhere : resolve deny_first anyone (codes "/ab") ≡ read_only
unfolding resolve match_path segment_count eqs has_prefix trim_left trim_right count_byte
elsewhere = refl

resolve_lem_example :
    rank (resolve deny_first anyone (codes "/a/b"))
    ≡ outcome deny (strongest deny_first anyone (codes "/a/b"))
resolve_lem_example = resolve_lem deny_first anyone (codes "/a/b")

resolve_deny_first_example : 0 < rank (resolve deny_first anyone (codes "/a/b"))
unfolding match_path match_identity segment_count normalize_path
resolve_deny_first_example =
    resolve_deny_first deny_first anyone (codes "/a/b") full_access [] refl refl

abbrev seg_a : Bytes
seg_a = codes "a"

seg_a-IsSegment : IsSegment seg_a
seg_a-IsSegment = (λ e. cc, (λ e. absurd (omega arith), tt))

match_path-path_of_example :
    match_path (path_of (seg_a ∷ [])) (path_of (seg_a ∷ seg_a ∷ []))
    ≡ (if is_prefix (seg_a ∷ []) (seg_a ∷ seg_a ∷ []) then some 1 else none)
match_path-path_of_example =
    match_path-path_of (seg_a ∷ []) (seg_a ∷ seg_a ∷ []) (seg_a-IsSegment, tt)
      (seg_a-IsSegment, (seg_a-IsSegment, tt))

only_slashes : normalize_path (slash ∷ slash ∷ slashes 1) ≡ []
unfolding normalize_path trim_right
only_slashes = refl

-- "/a//data/" has the prefix "a" and the API path "/data/".
rewritten : rewrite_path (codes "/a//data/") ≡ inr (codes "a", codes "/data/")
unfolding rewrite_path split_repo_path split_known known_segment join ends_with eqs
rewritten = refl

escaping : rewrite_path (codes "/a/../b/config") ≡ inl traversal
unfolding rewrite_path split_repo_path split_known known_segment join ends_with eqs
escaping = refl

rewrite_path-IsRewritten_example : IsRewritten (codes "/a//data/") (codes "a") (codes "/data/")
rewrite_path-IsRewritten_example =
    rewrite_path-IsRewritten (codes "/a//data/") (codes "a") (codes "/data/") rewritten

data_request : IsRewritten (codes "/a//data/") (codes "a") (codes "/data/")
data_request = rewrite_path-IsRewritten (codes "/a//data/") (codes "a") (codes "/data/") rewritten

abbrev get_request : Request
get_request = record {
  method = codes "GET";
  path = codes "/a/data/";
  body = record { content = []; fails = false };
  range_header = [];
  accept_header = [];
  create_param = [];
  type_param = [];
  name_param = [];
  real_ip = codes "10.0.0.1";
  remote_addr = codes "10.0.0.1:99";
  repo_prefix = [];
  identities = [];
  who_is = none;
  append_only = false;
  request_id = [];
}

-- A handler that counts its calls.
abbrev counting : Handler ℕ
counting c n = (reply (record { status = 200; headers = []; body = no_content }), n + 1)

guarded_example :
    IsRefused 5 (repo_prefix (acl (some deny_last) true false counting) get_request 5)
    ⊎ IsHandedOn deny_last counting get_request 5
        (repo_prefix (acl (some deny_last) true false counting) get_request 5)
guarded_example = guarded deny_last true false counting get_request 5 (unfold has_prefix in refl)

-- A cache with room for one entry.
abbrev small_cache : Cache ℕ
small_cache = cache_set (new_cache 60 1) 0 (codes "10.0.0.1") 7

evicts : cache_get (cache_set small_cache 1 (codes "10.0.0.2") 8) 2 (codes "10.0.0.1") ≡ none
unfolding cache_get cache_set new_cache get put eqs
evicts = refl

small_cache-IsCoherent : IsCoherent small_cache
unfolding cache_set new_cache
small_cache-IsCoherent =
    set_all-IsCoherent {A = ℕ} 60 1 ((0, codes "10.0.0.1", 7) ∷ []) (omega arith)

cache_get-cache_set_example :
    cache_get (cache_set small_cache 1 (codes "10.0.0.2") 8) 2 (codes "10.0.0.1") ≡ (
      if eqs (codes "10.0.0.2") (codes "10.0.0.1")
      then (if ltb (1 + small_cache.ttl) 2 then none else some 8)
      else if is_evicted 1 (remove (by_key small_cache.order) (codes "10.0.0.2")) (codes "10.0.0.1")
      then none
      else cache_get small_cache 2 (codes "10.0.0.1"))
unfolding cache_set new_cache get
cache_get-cache_set_example =
    cache_get-cache_set small_cache 1 2 (codes "10.0.0.2") (codes "10.0.0.1") 8
      small_cache-IsCoherent

abbrev two_calls : List (ℕ × Bytes × ℕ)
two_calls = (0, codes "10.0.0.1", 7) ∷ (1, codes "10.0.0.2", 8) ∷ []

cache_within_bound_example :
    (length (set_all (new_cache {A = ℕ} 60 1) two_calls).entries ≤ 1)
    × (length (set_all (new_cache {A = ℕ} 60 1) two_calls).entries
        ≡ length (set_all (new_cache {A = ℕ} 60 1) two_calls).order)
cache_within_bound_example = cache_within_bound {A = ℕ} 60 1 two_calls (omega arith)
