-- ===== src/Stats/Totals.antt =====
-- What internal/stats/store.go has counted after a sequence of records.
use ts_restic_server.Common.{
  ℕ, ◌+◌, ◌≡◌, refl, true, List, [], ◌∷◌, if◌then◌else◌, arith, inl, inr, Bool-cases, ◌∙◌,
}
use ts_restic_server.Common.Text.{Bytes, eqs, eqs_iff}
use ts_restic_server.Common.Dict.{get, get-put}
use ts_restic_server.Stats.{
  Counters, Table, zero_counters, or_zero, counters, add_write, add_read, add_delete, upsert,
  record_write, record_read, record_delete,
}

-- A call of RecordWrite, RecordRead or RecordDelete that the database executes.
pub data Entry : Type 0 where
  written read deleted : Bytes → ℕ → Entry

abbrev pub record_entry : Table → Entry → Table
record_entry t (written path n) = record_write true t path n
record_entry t (read path n) = record_read true t path n
record_entry t (deleted path n) = record_delete true t path n

abbrev pub record_entries : Table → List Entry → Table
record_entries t [] = t
record_entries t (e ∷ es) = record_entries (record_entry t e) es

-- The entries' bytes that were written, read or deleted in one repository, and how many they are.
abbrev pub totals : Bytes → List Entry → Counters
totals path [] = zero_counters
totals path (written p n ∷ es) = if eqs p path then add_write n (totals path es) else totals path es
totals path (read p n ∷ es) = if eqs p path then add_read n (totals path es) else totals path es
totals path (deleted p n ∷ es) =
    if eqs p path then add_delete n (totals path es) else totals path es

abbrev pub plus : Counters → Counters → Counters
plus a b = record {
  bytes_written = a.bytes_written + b.bytes_written;
  bytes_read = a.bytes_read + b.bytes_read;
  bytes_deleted = a.bytes_deleted + b.bytes_deleted;
  write_count = a.write_count + b.write_count;
  read_count = a.read_count + b.read_count;
  delete_count = a.delete_count + b.delete_count;
}

counters-upsert :
    (change : Counters → Counters) (t : Table) (p path : Bytes)
    → counters (upsert change t p) path
      ≡ (if eqs p path then change (counters t path) else counters t path)
unfolding counters
counters-upsert change t p path =
    ground (arith, get-put t p path (change (or_zero (get t p))), eqs_iff p path)

pub Counters-eq :
    (a b : Counters)
    → a.bytes_written ≡ b.bytes_written
    → a.bytes_read ≡ b.bytes_read
    → a.bytes_deleted ≡ b.bytes_deleted
    → a.write_count ≡ b.write_count
    → a.read_count ≡ b.read_count
    → a.delete_count ≡ b.delete_count
    → a ≡ b
Counters-eq a b w r d wc rc dc = λ i. record {
  bytes_written = w i;
  bytes_read = r i;
  bytes_deleted = d i;
  write_count = wc i;
  read_count = rc i;
  delete_count = dc i;
}

pub plus_zero : (a : Counters) → a ≡ plus a zero_counters
plus_zero a =
    Counters-eq a (plus a zero_counters) (omega arith) (omega arith) (omega arith) (omega arith)
      (omega arith) (omega arith)

-- A record counted first is one counted last.
pub plus_write : (n : ℕ) (a b : Counters) → plus (add_write n a) b ≡ plus a (add_write n b)
plus_write n a b = Counters-eq _ _ (omega arith) refl refl (omega arith) refl refl

pub plus_read : (n : ℕ) (a b : Counters) → plus (add_read n a) b ≡ plus a (add_read n b)
plus_read n a b = Counters-eq _ _ refl (omega arith) refl refl (omega arith) refl

pub plus_delete : (n : ℕ) (a b : Counters) → plus (add_delete n a) b ≡ plus a (add_delete n b)
plus_delete n a b = Counters-eq _ _ refl refl (omega arith) refl refl (omega arith)

-- A change of one repository that can be counted last as well.
counters-upsert_moved :
    (change : Counters → Counters)
    → ((a b : Counters) → plus (change a) b ≡ plus a (change b))
    → (t : Table) (p path : Bytes) (rest : Counters)
    → plus (counters (upsert change t p) path) rest
      ≡ plus (counters t path) (if eqs p path then change rest else rest)
counters-upsert_moved change moved t p path rest =
    rw (counters-upsert change t p path) (elim (Bool-cases (eqs p path)) [
      | inl same ↦ rw same (moved (counters t path) rest)
      | inr other ↦ rw other refl
    ])

counters-record_entries :
    (es : List Entry) (t : Table) (path : Bytes)
    → counters (record_entries t es) path ≡ plus (counters t path) (totals path es)
unfolding record_write record_read record_delete
counters-record_entries [] t path = plus_zero (counters t path)
counters-record_entries (written p n ∷ es) t path =
    counters-record_entries es (record_write true t p n) path
    ∙ counters-upsert_moved (add_write n) (plus_write n) t p path (totals path es)
counters-record_entries (read p n ∷ es) t path =
    counters-record_entries es (record_read true t p n) path
    ∙ counters-upsert_moved (add_read n) (plus_read n) t p path (totals path es)
counters-record_entries (deleted p n ∷ es) t path =
    counters-record_entries es (record_delete true t p n) path
    ∙ counters-upsert_moved (add_delete n) (plus_delete n) t p path (totals path es)

pub zero_plus : (a : Counters) → plus zero_counters a ≡ a
zero_plus a =
    Counters-eq (plus zero_counters a) a (omega arith) (omega arith) (omega arith) (omega arith)
      (omega arith) (omega arith)

-- After any records in an empty table, each of which the database executes, the counters of a repository are the sums of the bytes that
-- were written, read and deleted there, and the numbers of those records.
pub counters-totals :
    (es : List Entry) (path : Bytes) → counters (record_entries [] es) path ≡ totals path es
unfolding counters get
counters-totals es path = counters-record_entries es [] path ∙ zero_plus (totals path es)
