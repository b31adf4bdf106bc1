-- ===== src/Storage/Types.antt =====
-- The values that the storage takes and returns (crates/light-discord-storage/src/lib.rs).

-- `DEFAULT_VISIBLE_HISTORY_DAYS`, `DEFAULT_AUDIT_LOG_DAYS` and `DAY_MS`
use light_discord.Common.{
  Bool, Option, Text, arith, if◌then◌else◌, ltb, min, none, some, to_ascii_lowercase, trim, ℕ, ◌*◌,
  ◌-◌, ◌≤◌,
}

abbrev pub default_visible_history_days : ℕ
default_visible_history_days = 30

abbrev pub default_audit_log_days : ℕ
default_audit_log_days = 30

abbrev pub day_ms : ℕ
day_ms = 24 * 60 * 60 * 1000

abbrev pub u64_max : ℕ
u64_max = 18446744073709551615

pub record RetentionPolicy : Type 0 where
  pub visible_history_days : ℕ
  pub audit_log_days : ℕ

abbrev or_default : Option ℕ → ℕ → ℕ
or_default none d = d
or_default (some n) d = n

-- `read_days`, of the number that the variable holds, if it is set and parses.
unfoldable pub read_days : Option ℕ → Option ℕ
read_days none = none
read_days (some days) = if ltb 0 days then some days else none

-- `RetentionPolicy::from_env`, of the two variables.
unfoldable pub from_env : Option ℕ → Option ℕ → RetentionPolicy
unfolding read_days
from_env history audit = record {
  visible_history_days =
      min (or_default (read_days history) default_visible_history_days)
        default_visible_history_days;
  audit_log_days = min (or_default (read_days audit) default_audit_log_days) default_audit_log_days;
}

-- `cutoff_unix_ms` at the time `now`: a saturating product and difference.
unfoldable pub cutoff_unix_ms : ℕ → ℕ → ℕ
cutoff_unix_ms now days = now - min (days * day_ms) u64_max

pub record Account : Type 0 where
  pub user_id : Text
  pub display_name : Text
  pub password_hash : Option Text
  pub is_admin : Bool

pub record SessionInfo : Type 0 where
  pub user_id : Text
  pub display_name : Text
  pub is_admin : Bool

pub data CreateAccountResult : Type 0 where
  created : Account → CreateAccountResult
  display_name_taken : CreateAccountResult
  invalid_invite : CreateAccountResult

pub record DeletedMessage : Type 0 where
  pub message_id : Text
  pub channel_id : Text
  pub deleted_by_user_id : Text
  pub deleted_at_unix_ms : ℕ

pub data DeleteMessageResult : Type 0 where
  deleted : DeletedMessage → DeleteMessageResult
  forbidden : DeleteMessageResult
  not_found : DeleteMessageResult

-- `display_name_key`
unfoldable pub display_name_key : Text → Text
display_name_key display_name = to_ascii_lowercase (trim display_name)

-- A retention policy read from the environment keeps between 1 and 30 days of messages and of the
-- audit log.
pub from_env_bounds :
    (history audit : Option ℕ)
    → (1 ≤ (from_env history audit).visible_history_days)
      × ((from_env history audit).visible_history_days ≤ 30)
      × (1 ≤ (from_env history audit).audit_log_days)
      × ((from_env history audit).audit_log_days ≤ 30)
unfolding from_env
from_env_bounds none none = ground arith
from_env_bounds none (some a) = ground arith
from_env_bounds (some h) none = ground arith
from_env_bounds (some h) (some a) = ground arith
