-- ===== src/Tests/Upstream.antt =====
-- Tests of internal/storage/rclone.
use ts_restic_server.Common.{if◌then◌else◌, ◌≡◌, refl, none, some, [], arith}
use ts_restic_server.Common.Int64.{lt64, add64, sub64}
use ts_restic_server.Common.Text.{codes, eqs, has_prefix}
use ts_restic_server.Storage.{ok, err, not_found, blob_data}
use ts_restic_server.Files.{done}
use ts_restic_server.Files.Program.{outcome}
use ts_restic_server.Acl.Paths.{body}
use ts_restic_server.Api.Range.{parse_range}
use ts_restic_server.Rclone.{
  Rclone, Server, exchange, repo_url, blob_url, digits_within, range_value, get_blob,
}
use ts_restic_server.Rclone.Ranges.{parse_range-range_value}

header : range_value 5 120 ≡ codes "bytes=5-124"
unfolding range_value lt64 add64 sub64 digits_within
header = refl

parse_range-range_value_example : parse_range (range_value 5 120) ≡ some (5, 120)
parse_range-range_value_example =
    parse_range-range_value 5 120 (omega arith) (omega arith) (omega arith) (omega arith)

abbrev upstream : Rclone
upstream = record { endpoint = codes "http://up:8080"; username = []; password = [] }

-- A server that has one blob and knows no ranges.
abbrev one_blob : Server (Unit {0})
one_blob = record {
  valid_url = λ url. has_prefix url (codes "http://");
  send = λ r s. (
    done (record {
      status_code = if eqs r.url (codes "http://up:8080/a/data/ff") then 200 else 404;
      content_length = 2;
      body = codes "hi";
    }),
    s,
  );
  decode_blobs = λ s. none;
}

found :
    outcome (get_blob one_blob upstream (codes "a") blob_data (codes "ff") 0 0) tt ≡ ok (codes "hi")
unfolding get_blob exchange blob_url repo_url range_value eqs has_prefix lt64
found = refl

missing :
    outcome (get_blob one_blob upstream (codes "a") blob_data (codes "fe") 0 0) tt ≡ err not_found
unfolding get_blob exchange blob_url repo_url range_value eqs has_prefix lt64
missing = refl
