-- ===== src/Stats/Queries.antt =====
-- The queries of internal/stats/store.go. A row that is written becomes the first of the table, so
-- that the rows stand in the order of their last access, the latest first; rows of the same second
-- may be answered in another order.
use ts_restic_server.Common.{
  ◌&&◌, ℕ, ◌+◌, ◌≡◌, refl, ap, sym, ◌∙◌, Bool, true, false, Option, none, some, List, [], ◌∷◌,
  length, arith, if◌then◌else◌, Bool-cases, inl, inr,
}
use ts_restic_server.Common.Text.{Bytes, eqs, eqs_iff}
use ts_restic_server.Common.Dict.{
  get, put, remove, has, IsUnique, has-remove, put-IsUnique, remove_of_fresh,
}
use ts_restic_server.Stats.{
  Counters, Table, zero_counters, or_zero, add_write, add_read, add_delete, is_integer, upsert,
  record_write, record_read, record_delete,
}
use ts_restic_server.Stats.Totals.{
  Entry, written, read, deleted, record_entry, record_entries, plus, plus_zero, zero_plus,
  Counters-eq, plus_write, plus_read, plus_delete,
}

-- Scan of the row that was found, which fails for a REAL
abbrev pub scanned : Option Counters → Option (Option Counters)
scanned none = some none
scanned (some row) = if is_integer row then some (some row) else none

abbrev pub all_integer : Table → Bool
all_integer [] = true
all_integer ((path, row) ∷ t) = is_integer row && all_integer t

-- GetRepoStats: the outer `none` is an error, the inner one a repository without statistics
unfoldable pub get_repo_stats : Bool → Table → Bytes → Option (Option Counters)
get_repo_stats available t repo_path = if available then scanned (get t repo_path) else none

-- GetAllRepoStats, each row with its repository; `none` is its error
unfoldable pub get_all_repo_stats : Bool → Table → Option (List (Bytes × Counters))
get_all_repo_stats available t = if available && all_integer t then some t else none

-- the sums of the query, which COALESCE makes 0 where there is no row
unfoldable pub sum_rows : Table → Counters
sum_rows [] = zero_counters
sum_rows ((path, row) ∷ t) = plus row (sum_rows t)

-- GetSummary: the sums and the number of rows, which the code prints into RepoPath; a sum past the
-- int64s is an error of SUM, or of Scan
unfoldable pub get_summary : Bool → Table → Option (Counters × ℕ)
unfolding sum_rows
get_summary available t =
    if available && is_integer (sum_rows t) then some (sum_rows t, length t) else none

-- The sums of all entries, whatever their repository.
abbrev pub grand_totals : List Entry → Counters
grand_totals [] = zero_counters
grand_totals (written p n ∷ es) = add_write n (grand_totals es)
grand_totals (read p n ∷ es) = add_read n (grand_totals es)
grand_totals (deleted p n ∷ es) = add_delete n (grand_totals es)

abbrev pub entry_path : Entry → Bytes
entry_path (written p n) = p
entry_path (read p n) = p
entry_path (deleted p n) = p

abbrev pub listed_path : Bytes → List Bytes → Bool
listed_path p [] = false
listed_path p (q ∷ qs) = if eqs q p then true else listed_path p qs

-- How many repositories the entries name beside those of `seen`.
abbrev pub repositories : List Bytes → List Entry → ℕ
repositories seen [] = 0
repositories seen (e ∷ es) =
    (if listed_path (entry_path e) seen then 0 else 1) + repositories (entry_path e ∷ seen) es

plus_assoc : (a b c : Counters) → plus (plus a b) c ≡ plus a (plus b c)
plus_assoc a b c =
    Counters-eq _ _ (omega arith) (omega arith) (omega arith) (omega arith) (omega arith)
      (omega arith)

plus_comm : (a b : Counters) → plus a b ≡ plus b a
plus_comm a b =
    Counters-eq _ _ (omega arith) (omega arith) (omega arith) (omega arith) (omega arith)
      (omega arith)

plus_swap : (a b c : Counters) → plus a (plus b c) ≡ plus b (plus a c)
plus_swap a b c = sym (plus_assoc a b c) ∙ ap (λ x. plus x c) (plus_comm a b) ∙ plus_assoc b a c

-- The sums, with one repository's row taken out.
sum_rows-remove :
    (t : Table) (p : Bytes)
    → IsUnique t
    → sum_rows t ≡ plus (or_zero (get t p)) (sum_rows (remove t p))
unfolding sum_rows get remove
sum_rows-remove [] p h = zero_plus zero_counters
sum_rows-remove ((k, row) ∷ t) p (new, h) = elim (Bool-cases (eqs k p)) [
  | inl same ↦ rw (same, sym ((eqs_iff k p).0 same), remove_of_fresh t k new) refl
  | inr other ↦ rw other (
      ap (λ x. plus row x) (sum_rows-remove t p h)
      ∙ plus_swap row (or_zero (get t p)) (sum_rows (remove t p)))
]

-- A change of one row changes the sums.
sum_rows-upsert :
    (change : Counters → Counters)
    → ((a b : Counters) → plus (change a) b ≡ plus a (change b))
    → (t : Table) (p : Bytes) (rest : Counters) → IsUnique t
    → plus (sum_rows (upsert change t p)) rest ≡ plus (sum_rows t) (change rest)
unfolding sum_rows put
sum_rows-upsert change moved t p rest h =
    let row = or_zero (get t p) in
    let others = sum_rows (remove t p) in
    ap (λ x. plus x rest) (plus_comm (change row) others)
    ∙ plus_assoc others (change row) rest
    ∙ ap (λ x. plus others x) (moved row rest)
    ∙ sym (plus_assoc others row (change rest))
    ∙ ap (λ x. plus x (change rest)) (plus_comm others row ∙ sym (sum_rows-remove t p h))

record_entry-IsUnique : (t : Table) (e : Entry) → IsUnique t → IsUnique (record_entry t e)
unfolding record_write record_read record_delete
record_entry-IsUnique t (written p n) h = put-IsUnique t p _ h
record_entry-IsUnique t (read p n) h = put-IsUnique t p _ h
record_entry-IsUnique t (deleted p n) h = put-IsUnique t p _ h

sum_rows-record_entries :
    (es : List Entry) (t : Table)
    → IsUnique t
    → sum_rows (record_entries t es) ≡ plus (sum_rows t) (grand_totals es)
unfolding record_write record_read record_delete
sum_rows-record_entries [] t h = plus_zero (sum_rows t)
sum_rows-record_entries (written p n ∷ es) t h =
    sum_rows-record_entries es (record_write true t p n) (record_entry-IsUnique t (written p n) h)
    ∙ sum_rows-upsert (add_write n) (plus_write n) t p (grand_totals es) h
sum_rows-record_entries (read p n ∷ es) t h =
    sum_rows-record_entries es (record_read true t p n) (record_entry-IsUnique t (read p n) h)
    ∙ sum_rows-upsert (add_read n) (plus_read n) t p (grand_totals es) h
sum_rows-record_entries (deleted p n ∷ es) t h =
    sum_rows-record_entries es (record_delete true t p n) (record_entry-IsUnique t (deleted p n) h)
    ∙ sum_rows-upsert (add_delete n) (plus_delete n) t p (grand_totals es) h

-- The rows are those of the repositories that were named.
abbrev Names : Table → List Bytes → Type 0
Names t seen = (p : Bytes) → has t p ≡ listed_path p seen

length-remove :
    (t : Table) (p : Bytes)
    → IsUnique t
    → length (remove t p) + (if has t p then 1 else 0) ≡ length t
unfolding remove
length-remove [] p h = refl
length-remove ((k, row) ∷ t) p (new, h) = elim (Bool-cases (eqs k p)) [
  | inl same ↦ rw (same, sym ((eqs_iff k p).0 same), remove_of_fresh t k new) (omega arith)
  | inr other ↦ rw other (omega (arith, length-remove t p h))
]

has-put :
    (t : Table) (p q : Bytes) (row : Counters)
    → has (put t p row) q ≡ (if eqs p q then true else has t q)
unfolding put
has-put t p q row = ground (arith, has-remove t p q)

length-record :
    (t : Table) (seen : List Bytes) (p : Bytes) (row : Counters)
    → IsUnique t
    → Names t seen
    → length (put t p row) ≡ (if listed_path p seen then 0 else 1) + length t
unfolding put
length-record t seen p row h names = ground (arith, length-remove t p h, names p)

record_entry-put :
    (t : Table) (e : Entry) → (row : Counters) × (record_entry t e ≡ put t (entry_path e) row)
unfolding record_write record_read record_delete
record_entry-put t (written p n) = (add_write n (or_zero (get t p)), refl)
record_entry-put t (read p n) = (add_read n (or_zero (get t p)), refl)
record_entry-put t (deleted p n) = (add_delete n (or_zero (get t p)), refl)

length-record_entries :
    (es : List Entry) (t : Table) (seen : List Bytes)
    → IsUnique t
    → Names t seen
    → length (record_entries t es) ≡ repositories seen es + length t
length-record_entries [] t seen h names = omega arith
length-record_entries (e ∷ es) t seen h names =
    let (row, same) = record_entry-put t e in
    let p = entry_path e in
    let tail =
      length-record_entries es (record_entry t e) (p ∷ seen) (record_entry-IsUnique t e h)
        (λ q. rw (same, has-put t p q row, names q)) in
    let first = ap (λ x. length x) same ∙ length-record t seen p row h names in
    omega (arith, tail, first)

-- After any records in an empty table, each of which the database executes, the summary has the sums
-- of the bytes that were written, read and deleted in all repositories, the numbers of those records,
-- and the number of the repositories that they name; it is an error where one of the sums passes the
-- int64s.
pub get_summary-totals :
    (es : List Entry)
    → get_summary true (record_entries [] es)
      ≡ (if is_integer (grand_totals es) then some (grand_totals es, repositories [] es) else none)
unfolding get_summary sum_rows
get_summary-totals es =
    let sums = sum_rows-record_entries es [] tt ∙ zero_plus (grand_totals es) in
    let rows : length (record_entries [] es) ≡ repositories [] es =
      omega (arith, length-record_entries es [] [] tt (λ q. refl)) in
    rw (sums, rows) refl
