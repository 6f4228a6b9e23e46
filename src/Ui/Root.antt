-- ===== src/Ui/Root.antt =====
-- The root repository in the web interface: its traffic is counted under "/", and its page looks it up
-- under the empty path.
use ts_restic_server.Common.{
  ℕ, ◌≡◌, refl, ap, ◌∙◌, sym, Bool, true, false, none, some, List, [], ◌∷◌, if◌then◌else◌, ◌+◌,
  Bool-cases, inl, inr,
}
use ts_restic_server.Common.Text.{Bytes, eqs}
use ts_restic_server.Common.Dict.{get, get-put}
use ts_restic_server.Storage.{
  Result, ok, err, panic, Backend, Call, create_call, delete_call, save_config_call, save_blob_call,
  delete_blob_call, after_call,
}
use ts_restic_server.Stats.{
  Counters, Table, zero_counters, or_zero, upsert, add_write, add_read, add_delete, record_write,
  record_read, record_delete,
}
use ts_restic_server.Stats.Queries.{get_repo_stats}
use ts_restic_server.Tracked
use ts_restic_server.Tracked.{repo_path, is_ok, delete_sized}
use ts_restic_server.Ui.{
  UiHandler, UiRequest, DetailPage, detail_page, rendered, repo_param, detail_data, repo_detail,
  row_of,
}
use ts_restic_server.Ui.LockForm.{repo_detail-page}

-- What the tracking counts: a call, or the end of a stream after some bytes.
pub data Traffic : Type 0 where
  called : Call → Traffic
  streamed : Bytes → ℕ → Traffic

module _ {S : Type 0} (inner : Backend S) (available : Bool) where
  abbrev pub after_one : Traffic → S × Table → S × Table
  after_one (called c) st = after_call (Tracked.backend inner available) c st
  after_one (streamed prefix n) st = Tracked.close_stream inner available prefix n st

  unfoldable pub after_traffic : List Traffic → S × Table → S × Table
  after_traffic [] st = st
  after_traffic (x ∷ xs) st = after_traffic xs (after_one x st)

  repo_path-given : (prefix : Bytes) → eqs (repo_path prefix) [] ≡ false
  unfolding repo_path eqs
  repo_path-given [] = refl
  repo_path-given (c ∷ s) = refl

  -- A row for the empty path is not made.
  abbrev NoRow : Table → Type 0
  NoRow t = get t [] ≡ none

  upsert-NoRow :
      (change : Counters → Counters) (prefix : Bytes) (t : Table)
      → NoRow t
      → NoRow (upsert change t (repo_path prefix))
  upsert-NoRow change prefix t h =
      rw
        (
          get-put t (repo_path prefix) [] (change (or_zero (get t (repo_path prefix)))),
          repo_path-given prefix,
        )
        h

  if-NoRow : (test : Bool) (t t' : Table) → NoRow t' → NoRow t → NoRow (if test then t' else t)
  if-NoRow true t t' h k = h
  if-NoRow false t t' h k = k

  record_write-NoRow :
      (prefix : Bytes) (n : ℕ) (t : Table)
      → NoRow t
      → NoRow (record_write available t (repo_path prefix) n)
  unfolding record_write
  record_write-NoRow prefix n t h = if-NoRow available t _ (upsert-NoRow (add_write n) prefix t h) h

  record_delete-NoRow :
      (prefix : Bytes) (n : ℕ) (t : Table)
      → NoRow t
      → NoRow (record_delete available t (repo_path prefix) n)
  unfolding record_delete
  record_delete-NoRow prefix n t h =
      if-NoRow available t _ (upsert-NoRow (add_delete n) prefix t h) h

  delete_sized-NoRow :
      (key kind name : Bytes) (size : Result ℕ) (s : S) (t : Table)
      → NoRow t
      → NoRow (delete_sized inner available key kind name size (s, t)).1.1
  delete_sized-NoRow key kind name (ok n) s t h = if-NoRow _ t _ (record_delete-NoRow key n t h) h
  delete_sized-NoRow key kind name (err e) s t h = if-NoRow _ t _ (record_delete-NoRow key 0 t h) h
  delete_sized-NoRow key kind name panic s t h = h

  after_one-NoRow : (x : Traffic) (s : S) (t : Table) → NoRow t → NoRow (after_one x (s, t)).1
  unfolding Tracked.save_config Tracked.save_blob Tracked.delete_blob Tracked.close_stream
      record_read
  after_one-NoRow (called (create_call key)) s t h = h
  after_one-NoRow (called (delete_call key)) s t h = h
  after_one-NoRow (called (save_config_call key body)) s t h =
      if-NoRow _ t _ (record_write-NoRow key _ t h) h
  after_one-NoRow (called (save_blob_call key kind name body)) s t h =
      if-NoRow _ t _ (record_write-NoRow key _ t h) h
  after_one-NoRow (called (delete_blob_call key kind name)) s t h =
      delete_sized-NoRow key kind name (inner.stat_blob key kind name s) s t h
  after_one-NoRow (streamed prefix n) s t h =
      if-NoRow available t _ (upsert-NoRow (add_read n) prefix t h) h

  after_traffic-NoRow :
      (xs : List Traffic) (st : S × Table) → NoRow st.1 → NoRow (after_traffic xs st).1
  unfolding after_traffic
  after_traffic-NoRow [] st h = h
  after_traffic-NoRow (x ∷ xs) (s, t) h =
      after_traffic-NoRow xs (after_one x (s, t)) (after_one-NoRow x s t h)

  row_of-missing :
      (h : UiHandler (S × Table))
      → h.store ≡ some (λ st. st.1)
      → (st : S × Table) → NoRow st.1
      → row_of h [] st ≡ zero_counters
  unfolding get_repo_stats
  row_of-missing h reads (s, t) missing = elim (Bool-cases h.available) [
    | inl up ↦ rw (reads, get_repo_stats, up, missing) refl
    | inr down ↦ rw (reads, get_repo_stats, down) refl
  ]

  -- The page of the root repository shows no traffic, whatever has been counted since the table was
  -- empty, that of the root repository itself included.
  pub root_page-zero :
      (h : UiHandler (S × Table))
      → h.store ≡ some (λ st. st.1)
      → (xs : List Traffic) (s : S) (c : UiRequest) (page : DetailPage)
      → repo_param c.param ≡ some []
      → (repo_detail h c (after_traffic xs (s, []))).0 ≡ rendered (detail_page page)
      → (page.repo_stats ≡ zero_counters) × (page.total_ops ≡ 0)
  unfolding get_repo_stats detail_data
  root_page-zero h reads xs s c page root shown =
      let st = after_traffic xs (s, []) in
      let (q, locks, accepted, same) = repo_detail-page h c st page shown in
      let path : q ≡ [] = (let both = sym accepted ∙ root in cc) in
      let missing : NoRow st.1 = after_traffic-NoRow xs (s, []) (unfold get in refl) in
      let zero_row : row_of h q st ≡ zero_counters =
        ap (λ p. row_of h p st) path ∙ row_of-missing h reads st missing in
      (
        sym (ap (λ p. p.repo_stats) same) ∙ zero_row,
        sym (ap (λ p. p.total_ops) same)
            ∙ ap (λ r. r.write_count + r.read_count + r.delete_count) zero_row,
      )
