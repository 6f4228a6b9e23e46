-- ===== src/Acl/Grades.antt =====
-- Engine.Allowed of internal/acl/acl.go: the three operations are grades of one permission.
use ts_restic_server.Common.{ℕ, ◌≤◌, ◌≡◌, true, arith, List, ◌↔◌}
use ts_restic_server.Common.Text.{Bytes}
use ts_restic_server.Acl.{
  Engine, OperationType, op_read, op_write, op_delete, rank, read_only, append_only, full_access,
  resolve, allowed,
}

-- The least permission that an operation needs.
abbrev pub needed : OperationType → ℕ
needed op_read = rank read_only
needed op_write = rank append_only
needed op_delete = rank full_access

-- An operation is allowed exactly if the resolved permission has at least the rank that it needs.
allowed_iff :
    (e : Engine) (ids : List Bytes) (path : Bytes) (op : OperationType)
    → (allowed e ids path op ≡ true) ↔ (needed op ≤ rank (resolve e ids path))
unfolding allowed
allowed_iff e ids path op_read = (λ h. ground arith, λ h. ground arith)
allowed_iff e ids path op_write = (λ h. ground arith, λ h. ground arith)
allowed_iff e ids path op_delete = (λ h. ground arith, λ h. ground arith)

-- Whoever is allowed an operation is allowed every operation that needs no more: who may delete may
-- write, and who may write may read.
pub allowed_mono :
    (e : Engine) (ids : List Bytes) (path : Bytes) (op less : OperationType)
    → needed less ≤ needed op
    → allowed e ids path op ≡ true
    → allowed e ids path less ≡ true
allowed_mono e ids path op less h permitted =
    (allowed_iff e ids path less).1 (omega (arith, h, (allowed_iff e ids path op).0 permitted))
