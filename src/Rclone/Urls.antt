-- ===== src/Rclone/Urls.antt =====
-- The URLs of internal/storage/rclone/rclone.go: the prefix middleware of internal/middleware takes
-- them apart into the repository and the blob that they are made of.
use ts_restic_server.Rclone.{Rclone}
