-- ===== src/Permission.antt =====
-- Roles, capabilities and the decisions that rest on them
-- (backend/internal/domain/permission, and the capability checks of
-- backend/internal/interfaces/middleware). Roles and capabilities are strings, as in the source.
pub mod Laws
mod Examples
use yunxia.Prelude.{
  ℕ, List, [], ◌∷◌, Bool, true, false, ◌||◌, Text, txt, str_eq, ◌==◌, if◌then◌else◌, Option, none,
  some, Result, ok, err, role_key_invalid,
}

abbrev pub role_super_admin : Text
role_super_admin = txt "super_admin"

abbrev pub role_admin : Text
role_admin = txt "admin"

abbrev pub role_operator : Text
role_operator = txt "operator"

abbrev pub role_user : Text
role_user = txt "user"

-- `IsValidRole`
unfoldable pub is_valid_role : Text → Bool
is_valid_role r =
    str_eq r role_super_admin || str_eq r role_admin || str_eq r role_operator || str_eq r role_user

abbrev pub status_active : Text
status_active = txt "active"

abbrev pub status_locked : Text
status_locked = txt "locked"

-- `IsValidStatus`
unfoldable pub is_valid_status : Text → Bool
is_valid_status s = str_eq s status_active || str_eq s status_locked

abbrev pub system_stats_read : Text
system_stats_read = txt "system.stats.read"

abbrev pub system_config_read : Text
system_config_read = txt "system.config.read"

abbrev pub system_config_write : Text
system_config_write = txt "system.config.write"

abbrev pub user_read : Text
user_read = txt "user.read"

abbrev pub user_create : Text
user_create = txt "user.create"

abbrev pub user_update : Text
user_update = txt "user.update"

abbrev pub user_lock : Text
user_lock = txt "user.lock"

abbrev pub user_password_reset : Text
user_password_reset = txt "user.password.reset"

abbrev pub user_tokens_revoke : Text
user_tokens_revoke = txt "user.tokens.revoke"

abbrev pub user_role_assign : Text
user_role_assign = txt "user.role.assign"

abbrev pub acl_read : Text
acl_read = txt "acl.read"

abbrev pub acl_manage : Text
acl_manage = txt "acl.manage"

abbrev pub source_read : Text
source_read = txt "source.read"

abbrev pub source_test : Text
source_test = txt "source.test"

abbrev pub source_create : Text
source_create = txt "source.create"

abbrev pub source_update : Text
source_update = txt "source.update"

abbrev pub source_delete : Text
source_delete = txt "source.delete"

abbrev pub source_secret_read : Text
source_secret_read = txt "source.secret.read"

abbrev pub task_read_all : Text
task_read_all = txt "task.read_all"

abbrev pub task_manage_all : Text
task_manage_all = txt "task.manage_all"

abbrev pub share_read_all : Text
share_read_all = txt "share.read_all"

abbrev pub share_manage_all : Text
share_manage_all = txt "share.manage_all"

abbrev pub rss_read : Text
rss_read = txt "rss.read"

abbrev pub rss_manage : Text
rss_manage = txt "rss.manage"

abbrev pub notification_read : Text
notification_read = txt "notification.read"

abbrev pub notification_manage : Text
notification_manage = txt "notification.manage"

abbrev pub audit_read : Text
audit_read = txt "audit.read"

abbrev pub audit_read_sensitive : Text
audit_read_sensitive = txt "audit.read_sensitive"

-- `AllCapabilities`
pub all_capabilities : List Text
all_capabilities =
    system_stats_read ∷ system_config_read ∷ system_config_write ∷ user_read ∷ user_create
    ∷ user_update ∷ user_lock ∷ user_password_reset ∷ user_tokens_revoke ∷ user_role_assign
    ∷ acl_read ∷ acl_manage ∷ source_read ∷ source_test ∷ source_create ∷ source_update
    ∷ source_delete ∷ source_secret_read ∷ task_read_all ∷ task_manage_all ∷ share_read_all
    ∷ share_manage_all ∷ rss_read ∷ rss_manage ∷ notification_read ∷ notification_manage
    ∷ audit_read ∷ audit_read_sensitive ∷ []

-- The capabilities of `admin`.
pub admin_capabilities : List Text
admin_capabilities =
    system_stats_read ∷ system_config_read ∷ system_config_write ∷ user_read ∷ user_create
    ∷ user_update ∷ user_lock ∷ user_password_reset ∷ user_tokens_revoke ∷ user_role_assign
    ∷ acl_read ∷ acl_manage ∷ source_read ∷ source_test ∷ source_create ∷ source_update
    ∷ source_delete ∷ task_read_all ∷ task_manage_all ∷ share_read_all ∷ share_manage_all ∷ rss_read
    ∷ rss_manage ∷ notification_read ∷ notification_manage ∷ audit_read ∷ []

-- The capabilities of `operator`.
pub operator_capabilities : List Text
operator_capabilities =
    system_stats_read ∷ source_read ∷ source_test ∷ task_read_all ∷ task_manage_all ∷ rss_read
    ∷ notification_read ∷ []

-- `ResolveCapabilities`
unfoldable pub resolve_capabilities : Text → Result (List Text)
unfolding all_capabilities admin_capabilities operator_capabilities
resolve_capabilities r =
    if str_eq r role_super_admin
    then ok all_capabilities
    else if str_eq r role_admin
    then ok admin_capabilities
    else if str_eq r role_operator
    then ok operator_capabilities
    else if str_eq r role_user
    then ok []
    else err role_key_invalid

-- `HasCapability`
unfoldable pub has_capability : List Text → Text → Bool
has_capability [] target = false
has_capability (c ∷ cs) target = str_eq c target || has_capability cs target

-- The switch that `CanAssignRole` and `CanManageTargetRole` share.
abbrev reaches : Text → Text → Bool
reaches actor target =
    if str_eq actor role_super_admin
    then is_valid_role target
    else if str_eq actor role_admin
    then str_eq target role_operator || str_eq target role_user
    else false

-- `CanAssignRole`
unfoldable pub can_assign_role : Text → Text → Bool
unfolding is_valid_role
can_assign_role actor target = reaches actor target

-- `CanManageTargetRole`
unfoldable pub can_manage_target_role : Text → Text → Bool
unfolding is_valid_role
can_manage_target_role actor target = reaches actor target

-- `CanReadTask`, `CanManageTask`, `CanReadShare` and `CanManageShare`
pub can_read_task : ℕ → ℕ → List Text → Bool
can_read_task actor owner cs = actor == owner || has_capability cs task_read_all

pub can_manage_task : ℕ → ℕ → List Text → Bool
can_manage_task actor owner cs = actor == owner || has_capability cs task_manage_all

pub can_read_share : ℕ → ℕ → List Text → Bool
can_read_share actor owner cs = actor == owner || has_capability cs share_read_all

pub can_manage_share : ℕ → ℕ → List Text → Bool
can_manage_share actor owner cs = actor == owner || has_capability cs share_manage_all

-- `security.RequestAuth`
pub record RequestAuth : Type 0 where
  pub user_id : ℕ
  pub username : Text
  pub role_key : Text
  pub status : Text
  pub capabilities : List Text

-- How a capability check ends: with status 401, with status 403, or in the next handler.
pub data Verdict : Type 0 where
  unauthorized forbidden next : Verdict

-- `RequireCapability`
pub require_capability : Text → Option RequestAuth → Verdict
require_capability c none = unauthorized
require_capability c (some auth) = if has_capability auth.capabilities c then next else forbidden

pub require_all : List Text → RequestAuth → Verdict
require_all [] auth = next
require_all (c ∷ cs) auth =
    let rest = require_all cs auth in if has_capability auth.capabilities c then rest else forbidden

-- `RequireCapabilitiesForAction`, its audit record left out.
pub require_capabilities_for_action : List Text → Option RequestAuth → Verdict
unfolding require_all
require_capabilities_for_action cs none = unauthorized
require_capabilities_for_action cs (some auth) = require_all cs auth
