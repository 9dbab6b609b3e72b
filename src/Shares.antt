-- ===== src/Shares.antt =====
-- Public shares (`ShareService` in backend/internal/application/service/share_service.go, and
-- share_repo_impl.go in backend/internal/infrastructure/persistence/gorm): who may open what. The
-- clock's time, the comparison of passwords, the sources, the reader of the metadata, the state of the
-- disk and of the drivers, and the issue of tokens are parameters. Times are in nanoseconds.
pub mod Targets
pub mod Paths
pub mod Open
pub mod Access
pub mod Confined
mod Examples
use yunxia.Prelude.{
  ℕ, ◌-◌, List, [], ◌∷◌, ◌++◌, Bool, true, false, not, ◌&&◌, ◌||◌, any, keep, Text, txt, str_eq,
  is_empty, has_prefix, trim_prefix, trim_suffix, trim_space, ◌==◌, ltb, if◌then◌else◌, Option,
  none, some, Result, ok, err, Error, not_found, path_invalid, permission_denied, file_not_found,
  share_expired, share_password_required, share_password_invalid, source_driver_unsupported, ◌>>=◌,
  ◌>>◌, refuse_if,
}
use yunxia.Permission.{RequestAuth, can_read_share, can_manage_share}
use yunxia.Vfs.Clean.{split_slash}
use yunxia.Vfs.Path.{
  normalize_virtual_path, normalize_mount_path, is_sub_path, merge_mount_and_inner_path, base,
}
use yunxia.Vfs.Mounts.{StorageSource}
use yunxia.Local.{path_join, resolve_physical_path}

-- `entity.ShareLink`, the times of creation and update left out.
pub record ShareLink : Type 0 where
  pub id : ℕ
  pub user_id : ℕ
  pub source_id : ℕ
  pub path : Text
  pub target_vfs_node_id : ℕ
  pub target_virtual_path : Text
  pub resolved_source_id : ℕ
  pub resolved_inner_path : Text
  pub name : Text
  pub is_dir : Bool
  pub token : Text
  pub password_hash : Option Text
  pub expires_at : Option ℕ

-- `entity.VFSNode`, as far as shares read it, with the answers of `metadataVFSNodeIsDirectory` and
-- `metadataVFSNodeUnavailable`.
pub record SharedNode : Type 0 where
  pub id : ℕ
  pub source_id : Option ℕ
  pub path : Text
  pub name : Text
  pub is_directory : Bool
  pub unavailable : Bool

-- `metadataReader`, with what refreshing a share's target answers. `resolve_node` stands for
-- `ResolveNode`, which normalizes the path that it is given and looks for the node of that path.
pub record NodeReader : Type 0 where
  pub resolve_node_by_id : ℕ → Result SharedNode
  pub resolve_node : Text → Result SharedNode
  pub refresh_target : Text → Result (Unit {0})

-- What the service is made with. The name of a file and whether it is a directory is what the disk,
-- and the driver of a type, answer; a file that does not exist is `file_not_found`.
pub record Environment : Type 0 where
  pub now : ℕ
  pub compare_password : Text → Text → Bool
  pub find_source : ℕ → Result StorageSource
  pub reader : Option NodeReader
  pub decode_config : Text → Result Text
  pub stat_local : Text → Result (Text × Bool)
  pub file_driver : Text → Option (StorageSource → Text → Result (Text × Bool))
  pub issue_token : ℕ → Text → Text → ℕ → Result Text

-- `shareTargetResolution`
pub record ShareTarget : Type 0 where
  pub node : Option SharedNode
  pub source : StorageSource
  pub virtual_path : Text
  pub inner_path : Text
  pub name : Text
  pub is_dir : Bool
  pub node_first : Bool

-- `ensureShareAccessible`
pub ensure_password : Environment → Option Text → Text → Result (Unit {0})
ensure_password e none password = ok tt
ensure_password e (some hash) password =
    refuse_if (is_empty password) share_password_required
    >> refuse_if (not (e.compare_password hash password)) share_password_invalid

pub is_past : ℕ → Option ℕ → Bool
is_past now none = false
is_past now (some at) = ltb at now

pub ensure_share_accessible : Environment → ShareLink → Text → Result (Unit {0})
unfolding ensure_password is_past
ensure_share_accessible e share password =
    refuse_if (is_past e.now share.expires_at) share_expired
    >> ensure_password e share.password_hash password

-- `authorizeShareOwnership`
pub authorize_share_ownership : Option RequestAuth → ShareLink → Bool → Result (Unit {0})
authorize_share_ownership none share manage = err permission_denied
authorize_share_ownership (some auth) share manage =
    refuse_if
      (not (
        if manage
        then can_manage_share auth.user_id share.user_id auth.capabilities
        else can_read_share auth.user_id share.user_id auth.capabilities))
      permission_denied

-- `normalizeShareRelativePath`
pub normalize_share_relative_path : Text → Result Text
normalize_share_relative_path input =
    if is_empty input
    then ok (txt "/")
    else if not (has_prefix input (txt "/"))
    then err path_invalid
    else if any (λ part. str_eq part (txt "..")) (split_slash (trim_prefix input (txt "/")))
    then err path_invalid
    else normalize_virtual_path input

-- `isWithinShareRoot`
pub is_within_share_root : Text → Text → Bool
is_within_share_root root target =
    if str_eq root (txt "/")
    then has_prefix target (txt "/")
    else str_eq target root || has_prefix target (trim_suffix root (txt "/") ++ txt "/")

abbrev pub actual_of : Text → Text → Text
actual_of root relative =
    if str_eq root (txt "/") then relative else path_join root (trim_prefix relative (txt "/"))

pub within_root : Text → Text → Result (Text × Text)
unfolding is_within_share_root
within_root root relative =
    if str_eq relative (txt "/")
    then ok (root, relative)
    else if is_within_share_root root (actual_of root relative)
    then ok (actual_of root relative, relative)
    else err path_invalid

-- `resolveShareTargetPath`: the path that is asked for, from the root of the tree and from the share.
pub resolve_share_target_path : Text → Text → Result (Text × Text)
unfolding normalize_share_relative_path within_root
resolve_share_target_path share_root requested = do
  root ← normalize_virtual_path share_root
  relative ← normalize_share_relative_path requested
  within_root root relative
