-- ===== src/Api/Listing.antt =====
-- internal/api/list.go and version.go: the list of blobs, in either version of the REST API.
use ts_restic_server.Common.{Bool, not, List, [], ◌∷◌, map, if◌then◌else◌}
use ts_restic_server.Common.Text.{Bytes, codes, eqs, to_lower}
use ts_restic_server.Storage.{Result, ok, err, panic, Blob, valid_blob_type}
use ts_restic_server.Http.{Request, text, names_json, blobs_json, Reply, reply, panicked, Handler}
use ts_restic_server.Api.{ApiHandler, internal_error, blob_type, invalid_type}

abbrev pub restic_v2_type : Bytes
restic_v2_type = codes "application/vnd.x.restic.rest.v2"

-- isV2: strings.EqualFold against an ASCII text
unfoldable pub is_v2 : Request → Bool
unfolding eqs to_lower
is_v2 c = eqs (to_lower c.accept_header) (to_lower restic_v2_type)

abbrev pub list_result : Request → Result (List Blob) → Reply
list_result c (ok blobs) =
    if is_v2 c
    then reply (record {
      status = 200;
      headers = (codes "Content-Type", text restic_v2_type) ∷ [];
      body = blobs_json blobs;
    })
    else reply (record { status = 200; headers = []; body = names_json (map (λ b. b.name) blobs) })
list_result c (err e) = internal_error c
list_result c panic = panicked

-- ListBlobs; a nil list and an empty one are the same here, as in the reply
unfoldable pub list_blobs : {S : Type 0} → ApiHandler S → Handler S
unfolding is_v2
list_blobs h c s =
    if not (valid_blob_type (blob_type c))
    then (invalid_type c, s)
    else (list_result c (h.backend.list_blobs c.repo_prefix (blob_type c) s), s)
