-- ===== src/AuditLog/Saved.antt =====
-- The file of `downloadAuditLogJson` in frontend/src/components/AuditLogTable.tsx, read back.
use mirraura.Base.{ℕ, ◌≢◌}

-- No colon and no full stop.
abbrev pub IsPlain : ℕ → Type 0
IsPlain c = (c ≢ b':') × (c ≢ b'.')
