-- ===== src/Acl/Authorizer/Examples.antt =====
-- A rule that denies in a folder and one that allows, and each theorem on rules at an input.
use mathlib.Core.List.{Memᴰ, filter_map}
use yunxia.Prelude.{
  List, [], ◌∷◌, true, false, txt, trim_space, none, some, ok, err, acl_denied, pos, ◌≡◌, ◌↔◌, refl,
  ◌⊎◌, All, arith,
}
use yunxia.Permission.{RequestAuth, role_user, status_active}
use yunxia.Vfs.Clean.{clean}
use yunxia.Vfs.Path.{normalize_virtual_path, is_sub_path, below, merge_mount_and_inner_path}
use yunxia.Vfs.Mounts.{StorageSource}
use yunxia.Vfs.Clean.Segments.{segments}
use yunxia.Vfs.Path.Normal.{normalize_virtual_path-IsNormal}
use yunxia.Vfs.Path.Ancestry.{Leads}
use yunxia.Acl.{
  rule_matches_node, AclRule, read_action, acl_actions_for_rule, rule_contains_action, path_matches,
  rule_matches_path, is_allow, is_deny, is_for_user,
}
use yunxia.Acl.Matching.{path_matches_iff}
use yunxia.Acl.Evaluator.{
  sees_source, rule_effectively_allows_source_exposure, rule_can_expose_source,
  source_exposure_virtual_path, current_rule_virtual_path, exposure_target,
  inner_path_for_virtual_path, Evaluator, Reader, Target, target_virtual_path, rule_matches_target,
  resolve_target_node_best_effort, inner_path_in, or_first, is_below, resolve_rule_node, live_node,
  applies, allow_target, allow_loop, allow_path, allow_virtual_path_with_node_id,
}
use yunxia.Acl.Evaluator.Exposure.{IsExposure, sees_source_sound}
use yunxia.Acl.Evaluator.Decision.{IsAllowed, IsJudged, allow_target_iff}
use yunxia.Acl.Authorizer.{
  Authorizer, bypassing, no_rules, mount_path_for, evaluator_with, evaluator_for, new_evaluator,
  authorize_path, VfsItem, filter_vfs_loop,
}
use yunxia.Acl.Authorizer.Decisions.{
  IsWaved, IsJudging, IsClosed, new_evaluator_cases, authorize_path_sound,
}
use yunxia.Acl.Authorizer.Filters.{IsItemJudged, shown, filter_vfs_loop_exact}

program : Unit {0}
unfolding rule_matches_node acl_actions_for_rule sees_source rule_effectively_allows_source_exposure
    rule_can_expose_source source_exposure_virtual_path current_rule_virtual_path exposure_target
    inner_path_for_virtual_path trim_space clean below normalize_virtual_path is_sub_path
    merge_mount_and_inner_path rule_contains_action path_matches rule_matches_path is_allow is_deny
    is_for_user applies allow_target allow_loop allow_path allow_virtual_path_with_node_id
    target_virtual_path rule_matches_target resolve_target_node_best_effort inner_path_in or_first
    is_below resolve_rule_node live_node no_rules mount_path_for evaluator_with evaluator_for
    new_evaluator authorize_path filter_vfs_loop
program = tt

abbrev open_rule : AclRule
open_rule = record {
  id = 1;
  source_id = 1;
  vfs_node_id = none;
  path = txt "/";
  virtual_path = txt "/docs";
  subject_type = txt "user";
  subject_id = 7;
  effect = txt "allow";
  priority = pos 1;
  read = true;
  write = false;
  delete = false;
  share = false;
  inherit_to_children = true;
}

abbrev closed_rule : AclRule
closed_rule = record open_rule {
  id = 2;
  virtual_path = txt "/docs/secret";
  effect = txt "deny";
  priority = pos 5;
}

abbrev rules : List AclRule
rules = closed_rule ∷ open_rule ∷ []

abbrev authorizer : Authorizer
authorizer = record {
  configured = true;
  list_rules = λ id. ok rules;
  multi_user_enabled = ok true;
  find_source = none;
  metadata_reader = none;
}

abbrev reader : RequestAuth
reader = record {
  user_id = 7;
  username = [];
  role_key = role_user;
  status = status_active;
  capabilities = [];
}

abbrev judge : Evaluator
judge = record {
  bypass = false;
  user_id = 7;
  source_id = 1;
  rules = rules;
  mount_path = txt "/";
  metadata_reader = none;
}

abbrev item : VfsItem
item = record {
  id = 0;
  path = txt "/docs/a";
  entry_kind = txt "file";
  can_download = true;
  can_delete = true;
}

abbrev secret : VfsItem
secret = record item { path = txt "/docs/secret/b" }

path_matches_iff_example : (path_matches true (txt "/docs") (txt "/docs/a") ≡ true) ↔ (
    (txt "/docs" ≡ txt "/docs/a")
    ⊎ (true ≡ true) × Leads (segments (txt "/docs")) (segments (txt "/docs/a")))
unfolding program
path_matches_iff_example =
    path_matches_iff true (txt "/docs") (txt "/docs/a")
      (normalize_virtual_path-IsNormal (txt "/docs") refl)
      (normalize_virtual_path-IsNormal (txt "/docs/a") refl)

abbrev target : Target
target = record { path = txt "/docs/a"; virtual_path = txt "/docs/a"; node = none }

allow_target_iff_example :
    (allow_target judge target read_action ≡ true)
    ↔ IsAllowed (applies judge target read_action) rules
allow_target_iff_example = allow_target_iff judge target read_action ((omega arith, tt), (tt, tt))

new_evaluator_cases_example :
    (IsWaved authorizer reader rules × (judge ≡ bypassing true))
    ⊎ (IsJudging authorizer reader 1 rules judge ⊎ IsClosed authorizer rules judge)
unfolding program
new_evaluator_cases_example = new_evaluator_cases authorizer reader 1 refl refl refl

abbrev disk : StorageSource
disk = record {
  id = 1;
  name = txt "disk";
  driver_type = txt "local";
  status = txt "online";
  is_enabled = true;
  is_webdav_exposed = false;
  webdav_read_only = true;
  webdav_slug = [];
  mount_path = txt "/disk";
  root_path = txt "/";
  sort_order = 0;
  config_json = [];
}

-- The node 4 is the folder of the documents, and every other node the file that is asked for.
abbrev nodes : Reader
nodes = record {
  resolve_node = λ path. ok (some (record { id = 5; path = path; is_deleted = false }));
  resolve_node_by_id =
      λ id. ok (some (record { id = id; path = txt "/disk/docs"; is_deleted = false }));
}

-- The folder is opened by its node: the paths of the rule play no part.
abbrev node_rule : AclRule
node_rule = record open_rule { vfs_node_id = some 4; path = []; virtual_path = [] }

abbrev node_authorizer : Authorizer
node_authorizer = record authorizer {
  list_rules = λ id. ok (node_rule ∷ []);
  find_source = some (λ id. ok disk);
  metadata_reader = some nodes;
}

authorize_path_sound_example :
    IsWaved node_authorizer reader (node_rule ∷ [])
    ⊎ ((e : Evaluator) × (t : Target) × IsJudging node_authorizer reader 1 (node_rule ∷ []) e
        × IsJudged e (txt "/docs/a") read_action t
        × IsAllowed (applies e t read_action) (node_rule ∷ []))
unfolding program
authorize_path_sound_example =
    authorize_path_sound node_authorizer reader 1 (txt "/docs/a") read_action refl refl (tt, tt)
      refl

-- Outside of the folder the rule opens nothing.
outside_refused :
    authorize_path node_authorizer (some reader) 1 (txt "/other") read_action ≡ err acl_denied
unfolding program
outside_refused = refl

-- By the paths of rules, a folder is open and one in it is closed.
inside_refused :
    authorize_path authorizer (some reader) 1 (txt "/docs/secret/b") read_action ≡ err acl_denied
unfolding program
inside_refused = refl

filters_well :
    filter_vfs_loop judge (item ∷ secret ∷ record item { can_delete = false } ∷ [])
    ≡ ok (record item { can_delete = false } ∷ record item { can_delete = false } ∷ [])
unfolding program
filters_well = refl

filter_vfs_loop_exact_example :
    (filter_vfs_loop judge (item ∷ secret ∷ []) ≡ ok (record item { can_delete = false } ∷ [])) ↔ (
      All (IsItemJudged judge) (item ∷ secret ∷ [])
      × (record item { can_delete = false } ∷ [] ≡ filter_map (shown judge) (item ∷ secret ∷ [])))
filter_vfs_loop_exact_example =
    filter_vfs_loop_exact judge (item ∷ secret ∷ []) (record item { can_delete = false } ∷ [])

sees_source_sound_example : (r : AclRule) × Memᴰ r rules × IsExposure judge r
unfolding program
sees_source_sound_example = sees_source_sound judge rules ((omega arith, tt), (tt, tt)) refl
