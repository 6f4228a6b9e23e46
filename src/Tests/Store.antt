-- ===== src/Tests/Store.antt =====
-- Tests of internal/storage/memory and internal/storage/tracked.
use ts_restic_server.Common.{String, ◌≤◌, ◌≡◌, refl, true, some, false, List, [], ◌∷◌, arith}
use ts_restic_server.Common.Text.{Bytes, codes, eqs}
use ts_restic_server.Common.Dict.{get, put}
use ts_restic_server.Storage.{
  ok, err, Reader, Call, create_call, save_config_call, save_blob_call, delete_blob_call,
  after_calls, quota_exceeded, blob_data, blob_keys,
}
use ts_restic_server.Memory.{Memory, new, create_repo, save_config}
use ts_restic_server.Memory.Blobs.{backend, save_blob, store_blob, delete_blob, find_blob, get_blob}
use ts_restic_server.Memory.Usage.{IsSound, new-IsSound, create_repo-IsSound, stored_bytes}
use ts_restic_server.Memory.Usage.Blobs.{store_blob-IsSound}
use ts_restic_server.Memory.Lookup.{SaveEffect, store_blob_lem}
use ts_restic_server.Memory.Lookup.{DeleteEffect, delete_blob_lem}
use ts_restic_server.Memory.Blobs.{delete_blob}
use ts_restic_server.Memory.Reads.{fetched, get_blob_lem}
use ts_restic_server.Memory.Runs.{usage_within_limit, get_blob-save_blob}
use ts_restic_server.Stats.Queries.{get_summary, grand_totals, repositories, get_summary-totals}
use ts_restic_server.Common.{if◌then◌else◌, none}
use ts_restic_server.Stats.{is_integer}
use ts_restic_server.Stats.Totals.{Entry, written, read, deleted, record_entries}

abbrev body_of : String → Reader
body_of text = record { content = codes text; fails = false }

abbrev repo_a : Bytes
repo_a = codes "a"

abbrev name_1 : Bytes
name_1 = codes "01"

abbrev script : List Call
script =
    create_call repo_a
    ∷ save_blob_call repo_a blob_data name_1 (body_of "hello")
    ∷ save_config_call repo_a (body_of "cfg")
    ∷ delete_blob_call repo_a blob_data name_1
    ∷ save_blob_call repo_a blob_keys name_1 (body_of "key")
    ∷ []

six_left : (after_calls backend script (new 100)).used_bytes ≡ 6
unfolding after_calls new create_repo save_config save_blob delete_blob get put eqs
six_left = refl

empty_repo : Memory
empty_repo = (create_repo repo_a (new 8)).1

-- The second blob would pass the limit.
over_quota :
    (save_blob repo_a blob_data
      (codes "02")
      (body_of "four")
      (save_blob repo_a blob_data name_1 (body_of "hello") empty_repo).1).0.result
    ≡ err quota_exceeded
unfolding empty_repo new create_repo save_blob get put eqs
over_quota = refl

empty_repo-IsSound : IsSound empty_repo
unfolding empty_repo
empty_repo-IsSound = create_repo-IsSound repo_a (new 8) (new-IsSound 8 (omega arith))

usage_within_limit_example :
    ((after_calls backend script (new 100)).used_bytes
      ≡ stored_bytes (after_calls backend script (new 100)))
    × (stored_bytes (after_calls backend script (new 100)) ≤ 100)
usage_within_limit_example = usage_within_limit 100 script (omega arith) (omega arith)

store_blob_lem_example :
    SaveEffect repo_a blob_data name_1
      (codes "hello")
      empty_repo
      (store_blob repo_a blob_data name_1 (codes "hello") empty_repo)
store_blob_lem_example = store_blob_lem repo_a blob_data name_1 (codes "hello") empty_repo

max_8 : empty_repo.max_bytes ≡ 8
unfolding empty_repo new create_repo get put
max_8 = refl

full_repo : Memory
full_repo = (store_blob repo_a blob_data name_1 (codes "hello") empty_repo).1

full_repo-IsSound : IsSound full_repo
unfolding full_repo
full_repo-IsSound =
    store_blob-IsSound repo_a blob_data name_1 (codes "hello") empty_repo (omega (arith, max_8))
      empty_repo-IsSound

delete_blob_lem_example :
    DeleteEffect repo_a blob_data name_1 full_repo (delete_blob repo_a blob_data name_1 full_repo)
delete_blob_lem_example = delete_blob_lem repo_a blob_data name_1 full_repo

get_blob_lem_example :
    get_blob repo_a blob_data name_1 1 2 full_repo
    ≡ fetched 1 2 (find_blob repo_a blob_data name_1 full_repo)
get_blob_lem_example =
    get_blob_lem repo_a blob_data name_1 1 2 full_repo full_repo-IsSound (omega arith)

saved_hello : (save_blob repo_a blob_data name_1 (body_of "hello") empty_repo).0.result ≡ ok tt
unfolding empty_repo new create_repo save_blob get put eqs
saved_hello = refl

get_blob-save_blob_example :
    get_blob repo_a blob_data name_1 0 0
      (save_blob repo_a blob_data name_1 (body_of "hello") empty_repo).1
    ≡ ok (codes "hello")
get_blob-save_blob_example =
    get_blob-save_blob repo_a blob_data name_1 (body_of "hello") empty_repo empty_repo-IsSound
      (omega (arith, max_8)) saved_hello

-- Records of two repositories.
abbrev recorded : List Entry
recorded = written repo_a 5 ∷ read (codes "b") 7 ∷ written repo_a 2 ∷ deleted repo_a 5 ∷ []

get_summary-totals_example : get_summary true (record_entries [] recorded) ≡ (
    if is_integer (grand_totals recorded)
    then some (grand_totals recorded, repositories [] recorded)
    else none)
get_summary-totals_example = get_summary-totals recorded
