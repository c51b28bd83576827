-- ===== src/Storage/Ended.antt =====
-- applyPrefixed of internal/core/storage/migrate.go, where the SQL of a migration ends its transaction.
use control_center.Storage.Migrating.{version_key}
