-- ===== src/Remote/Export.antt =====
-- The methods of internal/storage/nfs/nfs.go: those of the shared code over the NFS client.
use ts_restic_server.Common.{ℕ, Bool, List}
use ts_restic_server.Common.Text.{Bytes}
use ts_restic_server.Storage.{Reader, Blob}
use ts_restic_server.Files.{Files, Answer}
use ts_restic_server.Files.Program.{Program}
use ts_restic_server.Remote
use ts_restic_server.Remote.{Client}
use ts_restic_server.Remote.Nfs.{nfs_client}

module _ {S : Type 0} (f : Files S) (base : Bytes) (is_connected : S → Bool)
    (connect disconnect : S → Answer (Unit {0}) × S) where
  abbrev pub nfs : Client S
  nfs = nfs_client f base is_connected connect disconnect

  abbrev pub nfs_ensure_connected : Program S (Unit {0})
  nfs_ensure_connected = Remote.ensure_connected nfs

  abbrev pub nfs_create_repo : Bytes → Program S (Unit {0})
  nfs_create_repo = Remote.create_repo nfs

  abbrev pub nfs_delete_repo : Bytes → Program S (Unit {0})
  nfs_delete_repo = Remote.delete_repo nfs

  abbrev pub nfs_stat_config : Bytes → Program S ℕ
  nfs_stat_config = Remote.stat_config nfs

  abbrev pub nfs_get_config : Bytes → Program S Bytes
  nfs_get_config = Remote.get_config nfs

  abbrev pub nfs_save_config : Bytes → Reader → Program S (Unit {0})
  nfs_save_config = Remote.save_config nfs

  abbrev pub nfs_stat_blob : Bytes → Bytes → Bytes → Program S ℕ
  nfs_stat_blob = Remote.stat_blob nfs

  abbrev pub nfs_get_blob : Bytes → Bytes → Bytes → ℕ → ℕ → Program S Bytes
  nfs_get_blob = Remote.get_blob nfs

  abbrev pub nfs_save_blob : Bytes → Bytes → Bytes → Reader → Program S (Unit {0})
  nfs_save_blob = Remote.save_blob nfs

  abbrev pub nfs_delete_blob : Bytes → Bytes → Bytes → Program S (Unit {0})
  nfs_delete_blob = Remote.delete_blob nfs

  abbrev pub nfs_list_dir : Bytes → Program S (List Blob)
  nfs_list_dir = Remote.list_dir nfs

  abbrev pub nfs_list_sharded : Bytes → Program S (List Blob)
  nfs_list_sharded = Remote.list_sharded nfs

  abbrev pub nfs_list_blobs : Bytes → Bytes → Program S (List Blob)
  nfs_list_blobs = Remote.list_blobs nfs
