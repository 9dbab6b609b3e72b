-- ===== src/Acl.antt =====
-- The rules of access control and what they match
-- (backend/internal/domain/entity/acl_rule.go and the rule functions of
-- backend/internal/application/service/acl_authorizer.go).
pub mod Evaluator
pub mod Authorizer
pub mod Matching
use yunxia.Prelude.{
  ℕ, List, [], ◌∷◌, ◌++◌, Bool, true, false, not, ◌&&◌, ◌||◌, Text, txt, str_eq, is_empty,
  has_prefix, trim_suffix, trim_space, ◌==◌, if◌then◌else◌, Option, none, some, ℤ,
}
use yunxia.Vfs.Path.{is_sub_path}

-- `entity.ACLRule`, its times left out.
pub record AclRule : Type 0 where
  pub id : ℕ
  pub source_id : ℕ
  pub vfs_node_id : Option ℕ
  pub path : Text
  pub virtual_path : Text
  pub subject_type : Text
  pub subject_id : ℕ
  pub effect : Text
  pub priority : ℤ
  pub read : Bool
  pub write : Bool
  pub delete : Bool
  pub share : Bool
  pub inherit_to_children : Bool

-- `ACLAction`
pub data AclAction : Type 0 where
  read_action write_action delete_action share_action : AclAction

-- What the judgement reads of `entity.VFSNode`.
pub record VfsNode : Type 0 where
  pub id : ℕ
  pub path : Text
  pub is_deleted : Bool

-- `ruleContainsAction`
unfoldable pub rule_contains_action : AclRule → AclAction → Bool
rule_contains_action rule read_action = rule.read
rule_contains_action rule write_action = rule.write
rule_contains_action rule delete_action = rule.delete
rule_contains_action rule share_action = rule.share

-- `aclActionsForRule`
unfoldable pub acl_actions_for_rule : AclRule → List AclAction
acl_actions_for_rule rule =
    add rule.read read_action
      (add rule.write write_action (add rule.delete delete_action (add rule.share share_action [])))
  where
    add : Bool → AclAction → List AclAction → List AclAction
    add held action rest = if held then action ∷ rest else rest

-- `ruleMatchesNode`
pub rule_matches_node : AclRule → VfsNode → VfsNode → Bool
rule_matches_node rule rule_node target_node =
    if rule_node.id == target_node.id
    then true
    else if not rule.inherit_to_children
    then false
    else is_sub_path rule_node.path target_node.path

-- `ruleMatchesNodePath`
pub rule_matches_node_path : AclRule → VfsNode → Text → Bool
rule_matches_node_path rule rule_node target_virtual_path =
    if str_eq rule_node.path target_virtual_path
    then true
    else if not rule.inherit_to_children
    then false
    else is_sub_path rule_node.path target_virtual_path

-- The comparison at the end of `ruleMatchesPath`.
pub path_matches : Bool → Text → Text → Bool
path_matches inherit rule_path target =
    if str_eq rule_path target
    then true
    else if not inherit
    then false
    else if str_eq rule_path (txt "/")
    then has_prefix target (txt "/")
    else has_prefix target (trim_suffix rule_path (txt "/") ++ txt "/")

-- `ruleMatchesPath`; a rule without a virtual path is about the path inside of the source.
pub rule_matches_path : AclRule → Text → Text → Bool
rule_matches_path rule target_path target_virtual_path =
    let virtual = trim_space rule.virtual_path in
    if is_empty virtual
    then path_matches rule.inherit_to_children (trim_space rule.path) target_path
    else path_matches rule.inherit_to_children virtual target_virtual_path

pub is_allow : AclRule → Bool
is_allow rule = str_eq (trim_space rule.effect) (txt "allow")

pub is_deny : AclRule → Bool
is_deny rule = str_eq (trim_space rule.effect) (txt "deny")

-- `rule.SubjectType == "user" && rule.SubjectID == userID`
pub is_for_user : ℕ → AclRule → Bool
is_for_user user_id rule = str_eq rule.subject_type (txt "user") && rule.subject_id == user_id
