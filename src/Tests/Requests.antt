-- ===== src/Tests/Requests.antt =====
-- Tests of internal/api over the memory backend.
use ts_restic_server.Common.{
  ℕ, String, ◌+◌, ◌-◌, ◌<◌, ◌≤◌, ◌≡◌, refl, true, false, ◌||◌, none, some, [], length, ltb, arith,
  ◌==◌, if◌then◌else◌, ◌∷◌, List,
}
use ts_restic_server.Common.Text.{Bytes, codes, eqs, has_prefix, cut, to_lower}
use ts_restic_server.Common.Dict.{get, put, remove}
use ts_restic_server.Common.Int64.{half, add64, sub64, lt64}
use ts_restic_server.Storage.{blob_data, valid_blob_type, valid_blob_name}
use ts_restic_server.Memory.{Memory, new, create_repo}
use ts_restic_server.Memory.Blobs.{
  backend, store_blob, save_blob, find_blob, stat_blob, store_in_bucket, read_blob, slice,
  slice_end,
}
use ts_restic_server.Memory.Usage.{IsSound, new-IsSound, create_repo-IsSound}
use ts_restic_server.Memory.Usage.Blobs.{store_blob-IsSound}
use ts_restic_server.Http.{Request, Handler, panicked, Response, stream}
use ts_restic_server.Api.{blob_type, blob_name, empty_reply, api_error, checked_blob}
use ts_restic_server.Api.Blob
use ts_restic_server.Api.Blob.{unsatisfiable}
use ts_restic_server.Api.Range.{parse_range, parse_int, clamp_length, clamp_length_lem, decimal}
use ts_restic_server.Middleware.Metrics.{Observed, metrics, host_updates, recorded, request_updates}
use ts_restic_server.Middleware.Metrics.Totals.{exchanges, total, requests_total, sent_total}
use ts_restic_server.Middleware.Metrics.Run.{observed_run}
use ts_restic_server.ApiError
use ts_restic_server.ApiError.{custom_http_error_handler}
use ts_restic_server.Memory
use ts_restic_server.Api.Reading.{
  IsBlobRequest, partial, get_blob-range, get_blob-panics, save_blob-binds,
}

abbrev repo_a : Bytes
repo_a = codes "a"

abbrev name_1 : Bytes
name_1 = codes "01"

abbrev hello : Bytes
hello = codes "hello"

abbrev request : String → Bytes → String → String → Request
request method t range content = record {
  method = codes method;
  path = [];
  body = record { content = codes content; fails = false };
  range_header = codes range;
  accept_header = [];
  create_param = [];
  type_param = t;
  name_param = name_1;
  real_ip = [];
  remote_addr = [];
  repo_prefix = repo_a;
  identities = [];
  who_is = none;
  append_only = false;
  request_id = [];
}

repo : Memory
repo = (create_repo repo_a (new 100)).1

repo-IsSound : IsSound repo
unfolding repo
repo-IsSound = create_repo-IsSound repo_a (new 100) (new-IsSound 100 (omega arith))

max_100 : repo.max_bytes ≡ 100
unfolding repo new create_repo get put
max_100 = refl

full : Memory
full = (store_blob repo_a blob_data name_1 hello repo).1

full-IsSound : IsSound full
unfolding full
full-IsSound =
    store_blob-IsSound repo_a blob_data name_1 hello repo (omega (arith, max_100)) repo-IsSound

full_has_hello : find_blob repo_a blob_data name_1 full ≡ some hello
unfolding full repo new create_repo store_blob find_blob get put eqs
full_has_hello = refl

abbrev ranged : Request
ranged = request "GET" blob_data "bytes=1-3" ""

ranged-IsBlobRequest : IsBlobRequest ranged
unfolding valid_blob_type valid_blob_name to_lower eqs
ranged-IsBlobRequest = (refl, refl)

ranged_found : find_blob ranged.repo_prefix (blob_type ranged) (blob_name ranged) full ≡ some hello
unfolding to_lower
ranged_found = full_has_hello

ranged_parsed : parse_range ranged.range_header ≡ some (1, 3)
unfolding parse_range parse_int has_prefix cut add64 sub64 lt64
ranged_parsed = refl

get_blob-range_example :
    (Blob.get_blob (record { backend = backend; append_only = true }) ranged full).0 ≡ (
      if ltb 1 (length hello)
      then partial 1 (if (3 == 0) || ltb (length hello) (1 + 3) then length hello - 1 else 3) hello
      else unsatisfiable ranged (length hello))
get_blob-range_example =
    get_blob-range ranged full ranged-IsBlobRequest full-IsSound hello ranged_found true 1 3
      ranged_parsed (omega arith)

-- A range whose end is the largest int64.
abbrev to_max : Request
to_max = request "GET" blob_data "bytes=1-9223372036854775807" ""

to_max_parsed : parse_range to_max.range_header ≡ some (1, half - 1)
unfolding parse_range parse_int has_prefix cut add64 sub64 lt64
to_max_parsed = refl

get_blob-panics_example :
    (Blob.get_blob (record { backend = backend; append_only = false }) to_max full).0 ≡ panicked
unfolding to_lower valid_blob_type valid_blob_name eqs
get_blob-panics_example =
    get_blob-panics to_max full (refl, refl) full-IsSound hello full_has_hello false 1 (half - 1)
      to_max_parsed (omega arith) (omega arith) refl

clamp_length_lem_example :
    (clamp_length 5 1 9 ≡ (if (9 == 0) || ltb 5 (1 + 9) then 5 - 1 else 9))
    × (0 < clamp_length 5 1 9)
    × (1 + clamp_length 5 1 9 ≤ 5)
clamp_length_lem_example = clamp_length_lem 5 1 9 (omega arith) (omega arith) (omega arith)

-- A save in append-only mode over the blob that stands there.
abbrev overwrite : Request
overwrite = request "POST" blob_data "" "other"

overwrite_accepted :
    (Blob.save_blob (record { backend = backend; append_only = true }) overwrite full).0
    ≡ empty_reply 200
unfolding full repo new create_repo store_blob get put eqs Blob.save_blob valid_blob_type
    valid_blob_name to_lower save_blob
overwrite_accepted = refl

save_blob-binds_example :
    find_blob repo_a
      (blob_type overwrite)
      name_1
      (Blob.save_blob (record { backend = backend; append_only = true }) overwrite full).1
    ≡ some (codes "other")
unfolding valid_blob_type valid_blob_name to_lower eqs
save_blob-binds_example = save_blob-binds true overwrite full (refl, refl) overwrite_accepted

-- A read that is answered, one that panics and one of a blob that is not there, with metrics.
abbrev missing : Request
missing = record ranged { name_param = codes "02"; identities = codes "host" ∷ [] }

abbrev requests : List Request
requests = ranged ∷ to_max ∷ missing ∷ []

abbrev observed : Observed
observed = record {
  route = λ c. codes "/:type/:name";
  content_length = λ c. length c.body.content;
  resolve_status = λ r. r.status;
  size = λ r. some (size_of r);
}
  where
    size_of : Response → ℕ
    size_of r = elim (r.body) [ stream bytes ↦ length bytes | _ ↦ 0 ]

abbrev get_blob : Handler Memory
get_blob = Blob.get_blob (record { backend = backend; append_only = false })

-- The answered read, the missing blob, and nothing of the panic.
counted_replies :
    let log = (observed_run observed true get_blob requests full).1.1 in
    (total (requests_total (codes "GET") (codes "/:type/:name") 404) log ≡ 1)
    × (total (requests_total (codes "GET") (codes "/:type/:name") 206) log ≡ 1)
    × (total (requests_total (codes "GET") (codes "/:type/:name") 500) log ≡ 0)
    × (total (sent_total [] (codes "/a")) log ≡ 3)
unfolding full total exchanges metrics Blob.get_blob valid_blob_type to_lower valid_blob_name
    Blob.get_requested parse_range has_prefix cut parse_int lt64 Blob.get_range stat_blob get
    store_blob clamp_length decimal api_error checked_blob ApiError.new ApiError.with_data put
    remove add64 sub64 eqs find_blob store_in_bucket create_repo new host_updates recorded
    request_updates repo Memory.Blobs.get_blob read_blob slice slice_end
counted_replies = (refl, refl, refl, refl)

-- The server's answer to a path without a route, and to an error without a status.
unknown_route :
    (custom_http_error_handler
        (λ status. codes "Not Found")
        false
        missing
        (record { status_code = 404; http_message = some []; text = [] })
      ≡ some (ApiError.new 404 (codes "Not Found") (codes "Not Found") []))
    × (custom_http_error_handler
          (λ status. codes "Internal Server Error")
          false
          missing
          (record { status_code = 0; http_message = none; text = codes "broken" })
        ≡ some (ApiError.new 500 (codes "Internal Server Error") (codes "broken") []))
unfolding custom_http_error_handler eqs
unknown_route = (refl, refl)
