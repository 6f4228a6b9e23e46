-- ===== src/Stats.antt =====
-- internal/stats/store.go: the counters of each repository. A table row is an entry of a map; the
-- three upserts either change the table or, where the database fails, leave it. Times are left out.
-- SQLite goes over from an INTEGER to a REAL where a sum passes the int64s; a counter from 2^63 on
-- stands for that REAL, which is not made smaller again.
pub mod Totals
pub mod Queries
use ts_restic_server.Common.{
  ltb, ◌&&◌, ℕ, ◌+◌, ◌≡◌, Bool, true, Option, none, some, if◌then◌else◌, arith,
}
use ts_restic_server.Common.Text.{Bytes, eqs, eqs_iff}
use ts_restic_server.Common.Int64.{half}
use ts_restic_server.Common.Dict.{Dict, get, put, get-put}

-- The counters of RepoStats.
pub record Counters : Type 0 where
  pub bytes_written : ℕ
  pub bytes_read : ℕ
  pub bytes_deleted : ℕ
  pub write_count : ℕ
  pub read_count : ℕ
  pub delete_count : ℕ

abbrev pub Table : Type 0
Table = Dict Counters

-- the column defaults of `migrate`
abbrev pub zero_counters : Counters
zero_counters = record {
  bytes_written = 0;
  bytes_read = 0;
  bytes_deleted = 0;
  write_count = 0;
  read_count = 0;
  delete_count = 0;
}

-- GetRepoStats, with zeros for a repository that has no row
abbrev pub or_zero : Option Counters → Counters
or_zero none = zero_counters
or_zero (some r) = r

unfoldable pub counters : Table → Bytes → Counters
counters t repo_path = or_zero (get t repo_path)

abbrev pub add_write : ℕ → Counters → Counters
add_write n r = record r { bytes_written = r.bytes_written + n; write_count = r.write_count + 1 }

abbrev pub add_read : ℕ → Counters → Counters
add_read n r = record r { bytes_read = r.bytes_read + n; read_count = r.read_count + 1 }

abbrev pub add_delete : ℕ → Counters → Counters
add_delete n r = record r { bytes_deleted = r.bytes_deleted + n; delete_count = r.delete_count + 1 }

-- Whether all counters are INTEGERs, as Scan into the int64s of RepoStats wants them.
abbrev pub is_integer : Counters → Bool
is_integer r =
    ltb r.bytes_written half
    && ltb r.bytes_read half
    && ltb r.bytes_deleted half
    && ltb r.write_count half
    && ltb r.read_count half
    && ltb r.delete_count half

-- INSERT … ON CONFLICT(repo_path) DO UPDATE
abbrev pub upsert : (Counters → Counters) → Table → Bytes → Table
upsert change t repo_path = put t repo_path (change (or_zero (get t repo_path)))

-- RecordWrite, RecordRead and RecordDelete; `available` says whether the database executes the
-- statement
unfoldable pub record_write : Bool → Table → Bytes → ℕ → Table
record_write available t repo_path n = if available then upsert (add_write n) t repo_path else t

unfoldable pub record_read : Bool → Table → Bytes → ℕ → Table
record_read available t repo_path n = if available then upsert (add_read n) t repo_path else t

unfoldable pub record_delete : Bool → Table → Bytes → ℕ → Table
record_delete available t repo_path n = if available then upsert (add_delete n) t repo_path else t
