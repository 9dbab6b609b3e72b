-- ===== src/Acl/Evaluator.antt =====
-- `aclEvaluator` (backend/internal/application/service/acl_authorizer.go). The node cache is left
-- out: the reader is a function, and asking it again gives the same node.
pub mod Priority
pub mod Decision
pub mod Exposure
use yunxia.Prelude.{
  ℕ, List, [], ◌∷◌, ◌++◌, Bool, true, false, not, ◌&&◌, ◌||◌, Text, txt, str_eq, is_empty,
  has_prefix, trim_prefix, trim_space, ◌==◌, if◌then◌else◌, Option, none, some, Result, ok, err,
  path_invalid, any, ltz, ℤ,
}
use yunxia.Vfs.Path.{
  normalize_virtual_path, normalize_mount_path, merge_mount_and_inner_path, is_sub_path,
}
use yunxia.Acl.{
  AclRule, AclAction, VfsNode, rule_contains_action, acl_actions_for_rule, rule_matches_node,
  rule_matches_node_path, rule_matches_path, is_allow, is_deny, is_for_user,
}

-- `metadataVFSReader`: nodes by path and by id.
pub record Reader : Type 0 where
  pub resolve_node : Text → Result (Option VfsNode)
  pub resolve_node_by_id : ℕ → Result (Option VfsNode)

pub record Evaluator : Type 0 where
  pub bypass : Bool
  pub user_id : ℕ
  pub source_id : ℕ
  pub rules : List AclRule
  pub mount_path : Text
  pub metadata_reader : Option Reader

-- `err != nil || node == nil || node.IsDeleted` gives no node.
unfoldable pub live_node : Result (Option VfsNode) → Option VfsNode
live_node (err e) = none
live_node (ok none) = none
live_node (ok (some n)) = if n.is_deleted then none else some n

-- `resolveRuleNode`
unfoldable pub resolve_rule_node : Option Reader → ℕ → Option VfsNode
unfolding live_node
resolve_rule_node none id = none
resolve_rule_node (some r) id = if id == 0 then none else live_node (r.resolve_node_by_id id)

resolve_by_path : Reader → Result Text → Option VfsNode
resolve_by_path r (err e) = none
resolve_by_path r (ok path) = live_node (r.resolve_node path)

-- `resolveTargetNodeBestEffort`
unfoldable pub resolve_target_node_best_effort : Option Reader → Text → ℕ → Option VfsNode
unfolding resolve_by_path
resolve_target_node_best_effort none virtual_path id = none
resolve_target_node_best_effort (some r) virtual_path id =
    if not (id == 0)
    then resolve_rule_node (some r) id
    else resolve_by_path r (normalize_virtual_path virtual_path)

-- The target of a judgement.
pub record Target : Type 0 where
  pub path : Text
  pub virtual_path : Text
  pub node : Option VfsNode

node_rule_matches : AclRule → Target → Option VfsNode → Bool
node_rule_matches rule t none = false
node_rule_matches rule t (some rule_node) = elim t.node [
  | some n ↦ rule_matches_node rule rule_node n
  | none ↦ rule_matches_node_path rule rule_node t.virtual_path
]

rule_matches_by : Option Reader → Option ℕ → AclRule → Target → Bool
unfolding node_rule_matches
rule_matches_by reader none rule t = rule_matches_path rule t.path t.virtual_path
rule_matches_by none (some id) rule t = rule_matches_path rule t.path t.virtual_path
rule_matches_by (some r) (some id) rule t = node_rule_matches rule t (resolve_rule_node (some r) id)

-- `ruleMatchesTarget`
unfoldable pub rule_matches_target : Evaluator → AclRule → Target → Bool
unfolding rule_matches_by
rule_matches_target e rule t = rule_matches_by e.metadata_reader rule.vfs_node_id rule t

-- The rules that the loop of `allowTarget` does not pass over.
unfoldable pub applies : Evaluator → Target → AclAction → AclRule → Bool
applies e t action rule =
    is_for_user e.user_id rule && (rule_matches_target e rule t && rule_contains_action rule action)

unfoldable pub or_first : Option ℤ → ℤ → Option ℤ
or_first none p = some p
or_first (some q) p = some q

unfoldable pub is_below : ℤ → Option ℤ → Bool
is_below p none = false
is_below p (some q) = ltz p q

-- The loop of `allowTarget`: the priority that was matched first, and whether a rule allowed.
unfoldable pub allow_loop : (AclRule → Bool) → List AclRule → Option ℤ → Bool → Bool
allow_loop app [] matched allowed = allowed
allow_loop app (r ∷ rs) matched allowed =
    let skipped = allow_loop app rs matched allowed in
    let taken = allow_loop app rs (or_first matched r.priority) (allowed || is_allow r) in
    if not (app r)
    then skipped
    else if is_below r.priority matched
    then allowed
    else if is_deny r
    then false
    else taken

-- `allowTarget`
unfoldable pub allow_target : Evaluator → Target → AclAction → Bool
allow_target e t action = allow_loop (applies e t action) e.rules none false

-- The virtual path that `allowPath` judges.
unfoldable pub target_virtual_path : Text → Text → Text
target_virtual_path mount path =
    let merged = merge_mount_and_inner_path mount path in if is_empty merged then path else merged

judge_path : Evaluator → AclAction → Result Text → Result Bool
judge_path e action (err x) = err path_invalid
judge_path e action (ok path) =
    let virtual = target_virtual_path e.mount_path path in
    let node = resolve_target_node_best_effort e.metadata_reader virtual 0 in
    ok (allow_target e (record { path = path; virtual_path = virtual; node = node }) action)

-- `allowPath`
unfoldable pub allow_path : Evaluator → Text → AclAction → Result Bool
unfolding judge_path
allow_path e path action =
    if e.bypass then ok true else judge_path e action (normalize_virtual_path path)

-- `none` if the path is outside of the mount.
unfoldable pub inner_path_in : Result Text → Text → Option Text
inner_path_in (err x) path = some path
inner_path_in (ok mount) path =
    if str_eq mount (txt "/")
    then some path
    else if not (is_sub_path mount path)
    then none
    else (let rest = trim_prefix path mount in some (if is_empty rest then txt "/" else rest))

judge_virtual : Evaluator → Text → ℕ → AclAction → Option Text → Bool
judge_virtual e path id action none = false
judge_virtual e path id action (some inner) =
    let node = resolve_target_node_best_effort e.metadata_reader path id in
    allow_target e (record { path = inner; virtual_path = path; node = node }) action

judge_virtual_path : Evaluator → ℕ → AclAction → Result Text → Result Bool
judge_virtual_path e id action (err x) = err path_invalid
judge_virtual_path e id action (ok path) =
    ok (judge_virtual e path id action (inner_path_in (normalize_mount_path e.mount_path) path))

-- `allowVirtualPathWithNodeID`
unfoldable pub allow_virtual_path_with_node_id : Evaluator → Text → ℕ → AclAction → Result Bool
unfolding judge_virtual judge_virtual_path
allow_virtual_path_with_node_id e path id action =
    if e.bypass then ok true else judge_virtual_path e id action (normalize_virtual_path path)

-- `allowVirtualPath`
pub allow_virtual_path : Evaluator → Text → AclAction → Result Bool
allow_virtual_path e path action = allow_virtual_path_with_node_id e path 0 action

own_path : Evaluator → AclRule → Text
own_path e rule =
    let path = trim_space rule.path in
    let merged = merge_mount_and_inner_path e.mount_path path in
    if not (rule.source_id == 0) && rule.source_id == e.source_id
    then (if is_empty merged then path else merged)
    else path

stated_path : Evaluator → AclRule → Text
unfolding own_path
stated_path e rule =
    let virtual = trim_space rule.virtual_path in
    if is_empty virtual then own_path e rule else virtual

node_of_rule : Evaluator → Option ℕ → Option VfsNode
node_of_rule e none = none
node_of_rule e (some id) = resolve_rule_node e.metadata_reader id

-- `currentRuleVirtualPath`
unfoldable pub current_rule_virtual_path : Evaluator → AclRule → Text
unfolding node_of_rule stated_path
current_rule_virtual_path e rule = elim (node_of_rule e rule.vfs_node_id) [
  | some n ↦ n.path
  | none ↦ stated_path e rule
]

-- `sourceExposureVirtualPath`; the empty text if the rule exposes nothing.
unfoldable pub source_exposure_virtual_path : Evaluator → AclRule → Text
source_exposure_virtual_path e rule =
    let rule_path = current_rule_virtual_path e rule in
    let mount = if is_empty e.mount_path then txt "/" else e.mount_path in
    if is_empty rule_path
    then []
    else if is_sub_path rule_path mount
    then mount
    else if is_sub_path mount rule_path
    then rule_path
    else []

-- `ruleCanExposeSource`
unfoldable pub rule_can_expose_source : Evaluator → AclRule → Bool
rule_can_expose_source e rule =
    if not (rule.source_id == 0) && not (rule.source_id == e.source_id)
    then false
    else not (is_empty (source_exposure_virtual_path e rule))

inner_below : Result Text → Text → Text
inner_below (err x) path = path
inner_below (ok mount) path =
    let rest = trim_prefix path mount in
    if not (str_eq mount (txt "/")) && is_sub_path mount path
    then (if is_empty rest
        then txt "/"
        else if not (has_prefix rest (txt "/"))
        then txt "/" ++ rest
        else rest)
    else path

inner_normalized : Text → Text → Result Text → Text
inner_normalized mount virtual (err x) = virtual
inner_normalized mount virtual (ok path) = inner_below (normalize_mount_path mount) path

-- `innerPathForVirtualPath`
unfoldable pub inner_path_for_virtual_path : Evaluator → Text → Text
unfolding inner_below inner_normalized
inner_path_for_virtual_path e virtual =
    inner_normalized e.mount_path virtual (normalize_virtual_path virtual)

-- The target at which the exposure of a source by a rule is judged.
unfoldable pub exposure_target : Evaluator → AclRule → Target
exposure_target e rule =
    let path = source_exposure_virtual_path e rule in
    record {
      path = inner_path_for_virtual_path e path;
      virtual_path = path;
      node = resolve_target_node_best_effort e.metadata_reader path 0;
    }

-- `ruleEffectivelyAllowsSourceExposure`
unfoldable pub rule_effectively_allows_source_exposure : Evaluator → AclRule → Bool
rule_effectively_allows_source_exposure e rule =
    if not (rule_can_expose_source e rule)
    then false
    else any (λ a. allow_target e (exposure_target e rule) a) (acl_actions_for_rule rule)

-- The loop of `CanSeeSource`.
unfoldable pub sees_source : Evaluator → List AclRule → Bool
sees_source e [] = false
sees_source e (r ∷ rs) =
    let rest = sees_source e rs in
    if not (is_for_user e.user_id r)
    then rest
    else if not (is_allow r)
    then rest
    else if not (r.read || r.write || r.delete || r.share)
    then rest
    else if rule_effectively_allows_source_exposure e r
    then true
    else rest
