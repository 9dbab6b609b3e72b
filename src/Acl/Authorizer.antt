-- ===== src/Acl/Authorizer.antt =====
-- `ACLAuthorizer` (backend/internal/application/service/acl_authorizer.go).
pub mod Decisions
pub mod Filters
mod Examples
use yunxia.Prelude.{
  ℕ, List, [], ◌∷◌, Bool, true, false, not, ◌&&◌, ◌||◌, Text, txt, str_eq, is_empty, ◌==◌,
  if◌then◌else◌, Option, none, some, Result, ok, err, Error, not_found, acl_denied, ◌>>=◌, ◌>>◌,
  refuse_if,
}
use yunxia.Permission.{RequestAuth, role_super_admin}
use yunxia.Vfs.Mounts.{StorageSource}
use yunxia.Acl.{AclRule, AclAction, read_action, write_action, delete_action, share_action}
use yunxia.Acl.Evaluator.{
  Evaluator, Reader, allow_path, allow_virtual_path_with_node_id, sees_source,
}

-- What the authorizer was built with: whether the two repositories that it needs are there, the
-- rules for a source by falling priority, the multi-user switch, and, if they are there, the
-- sources and the metadata reader.
pub record Authorizer : Type 0 where
  pub configured : Bool
  pub list_rules : ℕ → Result (List AclRule)
  pub multi_user_enabled : Result Bool
  pub find_source : Option (ℕ → Result StorageSource)
  pub metadata_reader : Option Reader

abbrev pub bypassing : Bool → Evaluator
bypassing b = record {
  bypass = b;
  user_id = 0;
  source_id = 0;
  rules = [];
  mount_path = [];
  metadata_reader = none;
}

pub no_rules : List AclRule → Bool
no_rules [] = true
no_rules (r ∷ rs) = false

mount_or_root : StorageSource → Text
mount_or_root s = if is_empty s.mount_path then txt "/" else s.mount_path

pub mount_path_for : Option (ℕ → Result StorageSource) → ℕ → Result Text
unfolding mount_or_root
mount_path_for none source_id = ok (txt "/")
mount_path_for (some find) source_id =
    if source_id == 0 then ok (txt "/") else do source ← find source_id; ok (mount_or_root source)

-- What follows the reading of the configuration.
pub evaluator_with : Authorizer → ℕ → ℕ → List AclRule → Result Bool → Result Evaluator
evaluator_with a user_id source_id rules (err not_found) = ok (bypassing (no_rules rules))
evaluator_with a user_id source_id rules (err e) = err e
evaluator_with a user_id source_id rules (ok multi) =
    if not multi && no_rules rules then ok (bypassing true) else do
      mount ← mount_path_for a.find_source source_id
      ok (record {
        bypass = false;
        user_id = user_id;
        source_id = source_id;
        rules = rules;
        mount_path = mount;
        metadata_reader = a.metadata_reader;
      })

pub evaluator_for : Authorizer → ℕ → RequestAuth → Result Evaluator
unfolding evaluator_with
evaluator_for a source_id auth =
    if str_eq auth.role_key role_super_admin then ok (bypassing true) else do
      rules ← a.list_rules source_id
      evaluator_with a auth.user_id source_id rules a.multi_user_enabled

-- `newEvaluator`; the authentication is the request context's.
pub new_evaluator : Authorizer → Option RequestAuth → ℕ → Result Evaluator
unfolding evaluator_for
new_evaluator a none source_id = ok (bypassing true)
new_evaluator a (some auth) source_id =
    if not a.configured then ok (bypassing true) else evaluator_for a source_id auth

-- `AuthorizePath`
pub authorize_path : Authorizer → Option RequestAuth → ℕ → Text → AclAction → Result (Unit {0})
authorize_path a auth source_id path action = do
  e ← new_evaluator a auth source_id
  allowed ← allow_path e path action
  refuse_if (not allowed) acl_denied

-- `AuthorizeVirtualPath`
pub authorize_virtual_path :
    Authorizer → Option RequestAuth → ℕ → Text → ℕ → AclAction → Result (Unit {0})
authorize_virtual_path a auth source_id path node_id action = do
  e ← new_evaluator a auth source_id
  allowed ← allow_virtual_path_with_node_id e path node_id action
  refuse_if (not allowed) acl_denied

-- What the filters read and write of `dto.FileItem`.
pub record FileItem : Type 0 where
  pub path : Text
  pub is_dir : Bool
  pub can_download : Bool
  pub can_delete : Bool

-- What the filters read and write of `dto.VFSItem`.
pub record VfsItem : Type 0 where
  pub id : ℕ
  pub path : Text
  pub entry_kind : Text
  pub can_download : Bool
  pub can_delete : Bool

pub filter_file_loop : Evaluator → List FileItem → Result (List FileItem)
filter_file_loop e [] = ok []
filter_file_loop e (i ∷ is) =
    let rest = filter_file_loop e is in
    do
      allowed ← allow_path e i.path read_action
      if not allowed then rest else do
        delete_allowed ← allow_path e i.path delete_action
        kept ← rest
        ok (
            record i {
              can_delete = i.can_delete && delete_allowed;
              can_download = i.can_download && not i.is_dir;
            }
            ∷ kept)

-- `FilterFileItems`
pub filter_file_items : Authorizer → Option RequestAuth → ℕ → List FileItem → Result (List FileItem)
filter_file_items a auth source_id items = do
  e ← new_evaluator a auth source_id
  if e.bypass then ok items else filter_file_loop e items

pub filter_vfs_loop : Evaluator → List VfsItem → Result (List VfsItem)
filter_vfs_loop e [] = ok []
filter_vfs_loop e (i ∷ is) =
    let rest = filter_vfs_loop e is in
    do
      allowed ← allow_virtual_path_with_node_id e i.path i.id read_action
      if not allowed then rest else do
        delete_allowed ← allow_virtual_path_with_node_id e i.path i.id delete_action
        kept ← rest
        ok (
            record i {
              can_delete = i.can_delete && delete_allowed;
              can_download = i.can_download && str_eq i.entry_kind (txt "file");
            }
            ∷ kept)

-- `FilterVFSItems`
pub filter_vfs_items : Authorizer → Option RequestAuth → ℕ → List VfsItem → Result (List VfsItem)
filter_vfs_items a auth source_id items = do
  e ← new_evaluator a auth source_id
  if e.bypass then ok items else filter_vfs_loop e items

-- `CanSeeSource`
pub can_see_source : Authorizer → Option RequestAuth → ℕ → Result Bool
can_see_source a auth source_id = do
  e ← new_evaluator a auth source_id
  ok (if e.bypass then true else sees_source e e.rules)
