-- ===== src/Pipeline/Committer/Round/Health.antt =====
-- logdb/src/health.rs: the code and the time of the last error.
use lv_logdb.Prelude.{ℕ, Option, none, some, ◌==◌, if◌then◌else◌}

pub record HealthState : Type 0 where
  pub code : ℕ
  pub error_ts : ℕ

abbrev pub health_ok : ℕ
health_ok = 0

abbrev pub health_disk_full : ℕ
health_disk_full = 1

abbrev pub health_io_error : ℕ
health_io_error = 2

-- Only a healthy state takes the code; the time is always new.
unfoldable pub set_error : ℕ → ℕ → HealthState → HealthState
set_error now code h = record {
  code = if h.code == health_ok then code else h.code;
  error_ts = now;
}

unfoldable pub clear_if_recovered : HealthState → HealthState
clear_if_recovered h = record h { code = health_ok }

unfoldable pub check : HealthState → Option ℕ
check h = if h.code == health_ok then none else some h.code
