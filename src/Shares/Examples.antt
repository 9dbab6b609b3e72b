-- ===== src/Shares/Examples.antt =====
-- A shared directory, a reader of nodes, and the theorem on shares at a request.
use mathlib.Core.Option.{some-injective}
use yunxia.Prelude.{
  Text, sym, ap, ◌∙◌, ok_injective, ◌>>=◌, false, ◌≡◌, refl, [], ◌∷◌, true, txt, str_eq, trim_space,
  none, some, ok, err, path_invalid, share_expired, share_password_invalid,
}
use yunxia.Vfs.Clean.{split_slash, clean}
use yunxia.Vfs.Path.{
  normalize_virtual_path, dir, base, below, is_sub_path, merge_mount_and_inner_path,
}
use yunxia.Vfs.Mounts.{StorageSource}
use yunxia.Local.{path_join, parse_local_source_config, resolve_physical_path}
use yunxia.Shares.{
  ShareLink, SharedNode, NodeReader, Environment, ensure_password, is_past, ensure_share_accessible,
  normalize_share_relative_path, is_within_share_root, within_root, resolve_share_target_path,
}
use yunxia.Shares.Targets.{
  inner_of_mount, share_inner_path_for_source, source_missing, stat_target, inspect_target,
  resolve_share_target_node, resolve_legacy_share_target, target_of_node, resolve_share_target,
  reader_for, legacy_target, target_at, resolve_share_path_target,
}
use yunxia.Shares.Open.{
  Opened, download, token_ttl, build_share_download_url, first_by_token, download_of, open_inside,
  open_target, find_by_token, open_share,
}
use yunxia.Shares.Access.{IsHonest}
use yunxia.Shares.Confined.{IsOpened, open_share-IsOpened}

program : Unit {0}
unfolding trim_space split_slash clean normalize_virtual_path dir base below is_sub_path
    merge_mount_and_inner_path path_join parse_local_source_config resolve_physical_path
    ensure_password is_past ensure_share_accessible normalize_share_relative_path
    is_within_share_root within_root resolve_share_target_path inner_of_mount
    share_inner_path_for_source source_missing stat_target inspect_target resolve_share_target_node
    resolve_legacy_share_target target_of_node resolve_share_target reader_for legacy_target
    target_at resolve_share_path_target token_ttl build_share_download_url first_by_token
    download_of open_inside open_target find_by_token open_share
program = tt

abbrev disk : StorageSource
disk = record {
  id = 1;
  name = txt "disk";
  driver_type = txt "local";
  status = txt "online";
  is_enabled = true;
  is_webdav_exposed = true;
  webdav_read_only = true;
  webdav_slug = txt "disk";
  mount_path = txt "/disk";
  root_path = txt "/";
  sort_order = 0;
  config_json = txt "/srv";
}

abbrev environment : Environment
environment = record {
  now = 1000;
  compare_password = λ hash password. str_eq hash password;
  find_source = λ id. ok disk;
  reader = none;
  decode_config = λ json. ok json;
  stat_local = λ physical. ok (txt "docs", str_eq physical (txt "/srv/docs"));
  file_driver = λ kind. none;
  issue_token = λ id file kind ttl. ok (txt "t");
}

abbrev docs : ShareLink
docs = record {
  id = 1;
  user_id = 2;
  source_id = 1;
  path = txt "/docs";
  target_vfs_node_id = 0;
  target_virtual_path = txt "/disk/docs";
  resolved_source_id = 1;
  resolved_inner_path = txt "/docs";
  name = txt "docs";
  is_dir = true;
  token = txt "s";
  password_hash = some (txt "pw");
  expires_at = some 1300;
}

-- The file in the directory, for as long as the share lives.
abbrev file_download : Opened
file_download = download (record {
  source_id = 1;
  file_path = txt "/docs/a/b";
  path = txt "/disk/docs/a/b";
  disposition = txt "inline";
  ttl = 300;
  token = txt "t";
})

opens_well :
    open_share environment none (docs ∷ []) (txt "s") (txt "pw") (txt "/a//b") (txt "inline")
    ≡ ok file_download
unfolding program
opens_well = refl

kept_in :
    open_share environment none (docs ∷ []) (txt "s") (txt "pw") (txt "/../secret") (txt "inline")
    ≡ err path_invalid
unfolding program
kept_in = refl

kept_out :
    open_share environment none (docs ∷ []) (txt "s") (txt "no") (txt "/") []
    ≡ err share_password_invalid
unfolding program
kept_out = refl

too_late :
    open_share
      (record environment { now = 1301 })
      none
      (docs ∷ [])
      (txt "s")
      (txt "pw")
      (txt "/")
      []
    ≡ err share_expired
unfolding program
too_late = refl

-- What the listing hides is opened by its path.
abbrev hidden_download : Opened
hidden_download = download (record {
  source_id = 1;
  file_path = txt "/docs/.trash/a";
  path = txt "/disk/docs/.trash/a";
  disposition = txt "inline";
  ttl = 300;
  token = txt "t";
})

hidden_opens :
    open_share environment none (docs ∷ []) (txt "s") (txt "pw") (txt "/.trash/a") (txt "inline")
    ≡ ok hidden_download
unfolding program
hidden_opens = refl

-- The node that the reader has at a path: the shared directory, or a file.
abbrev node_at : Text → SharedNode
node_at path = record {
  id = 9;
  source_id = some 1;
  path = path;
  name = txt "docs";
  is_directory = str_eq path (txt "/disk/docs");
  unavailable = false;
}

-- A reader that normalizes what it is asked for.
abbrev nodes : NodeReader
nodes = record {
  resolve_node_by_id = λ id. ok (node_at (txt "/disk/docs"));
  resolve_node = λ path. normalize_virtual_path path >>= λ normalized. ok (node_at normalized);
  refresh_target = λ path. ok tt;
}

abbrev indexed : Environment
indexed = record environment { reader = some nodes }

finds_renamed : nodes.resolve_node (txt "/disk//a") ≡ ok (node_at (txt "/disk/a"))
unfolding program
finds_renamed = refl

opens_indexed :
    open_share indexed none (docs ∷ []) (txt "s") (txt "pw") (txt "/a//b") (txt "inline")
    ≡ ok file_download
unfolding program
opens_indexed = refl

indexed-IsHonest : IsHonest indexed
unfolding IsHonest
indexed-IsHonest r path node same normal found =
    let here : nodes ≡ r = some-injective nodes r same in
    let answer : nodes.resolve_node path ≡ ok node = ap (λ x. x.resolve_node path) here ∙ found in
    let there : nodes.resolve_node path ≡ ok (node_at path) =
      ap (λ x. x >>= λ normalized. ok (node_at normalized)) normal in
    ap (λ x. x.path) (ok_injective (sym answer ∙ there))

open_share-IsOpened_example : IsOpened indexed none (docs ∷ []) (txt "s") (txt "pw") file_download
open_share-IsOpened_example =
    open_share-IsOpened indexed none (docs ∷ []) (txt "s") (txt "pw") (txt "/a//b") (txt "inline")
      indexed-IsHonest opens_indexed
