-- ===== src/Shares/Access.antt =====
-- What a visitor gets to see of a share (`Open` in
-- backend/internal/application/service/share_service.go).
use yunxia.Prelude.{
  ℕ, ◌≤◌, ◌<◌, ◌-◌, Bool, true, false, not, Text, txt, is_empty, ltb, leb, if◌then◌else◌, Option,
  none, some, Result, ok, err, Error, share_expired, share_password_required,
  share_password_invalid, file_not_found, >>=-eq-ok, refuse_if, ok_injective, path_invalid,
  Option-cases, ◌≡◌, refl, sym, ap, ◌∙◌, inl, inr, Bool-cases, arith,
}
use yunxia.Vfs.Clean.Segments.{segments}
use yunxia.Vfs.Path.{normalize_virtual_path}
use yunxia.Vfs.Path.Normal.{normalize_virtual_path-IsNormal, normalize_virtual_path_normal}
use yunxia.Vfs.Path.Ancestry.{Leads}
use yunxia.Shares.{
  ShareLink, SharedNode, NodeReader, ShareTarget, Environment, ensure_password, is_past,
  ensure_share_accessible, is_within_share_root,
}
use yunxia.Shares.Targets.{
  resolve_share_path_target, target_at, node_target, legacy_target, reader_for,
  share_target_from_node, share_inner_path_for_source, source_missing, inspect_target,
}
use yunxia.Shares.Open.{
  Redirect, Opened, download, directory, five_minutes, token_ttl, build_share_download_url,
  download_of,
}

-- The second path lies at the first or below it.
pub record IsInside (outer inner : Text) : Type 0 where
  pub root : Text
  pub path : Text
  pub outer_normal : normalize_virtual_path outer ≡ ok root
  pub inner_normal : normalize_virtual_path inner ≡ ok path
  pub leads : Leads (segments root) (segments path)

-- The share has not expired, and its password, if it has one, was given.
pub data IsPassword (e : Environment) (password : Text) : Option Text → Type 0 where
  unprotected : IsPassword e password none
  right :
      (hash : Text)
      → is_empty password ≡ false
      → e.compare_password hash password ≡ true
      → IsPassword e password (some hash)

pub record IsAccessible (e : Environment) (share : ShareLink) (password : Text) : Type 0 where
  pub in_time : is_past e.now share.expires_at ≡ false
  pub known : IsPassword e password share.password_hash

-- The virtual path that is downloaded or listed.
abbrev pub opened_path : Opened → Text
opened_path (download r) = r.path
opened_path (directory asked root current) = current.virtual_path

-- The time to live of a token ends with the share, and within five minutes.
abbrev pub InTime : ℕ → Option ℕ → Opened → Type 0
InTime now none (download r) = r.ttl ≤ five_minutes
InTime now (some at) (download r) = (r.ttl ≤ five_minutes) × (0 < r.ttl) × (r.ttl ≤ at - now)
InTime now at (directory asked root current) = Unit {0}

-- By a normalized path, the reader finds the node that has that path.
unfoldable pub IsHonest : Environment → Type 0
IsHonest e =
    (r : NodeReader) (path : Text) (node : SharedNode)
    → e.reader ≡ some r
    → normalize_virtual_path path ≡ ok path
    → r.resolve_node path ≡ ok node
    → node.path ≡ path

refused_not : (b : Bool) (x : Error) {t : Unit {0}} → refuse_if b x ≡ ok t → b ≡ false
refused_not false x h = refl
refused_not true x h = absurd (cc)

ensure_password-IsPassword :
    (e : Environment) (password : Text) (hash : Option Text) {t : Unit {0}}
    → ensure_password e hash password ≡ ok t
    → IsPassword e password hash
unfolding ensure_password
ensure_password-IsPassword e password none h = unprotected
ensure_password-IsPassword e password (some hash) h =
    let (_, given, h1) = >>=-eq-ok (refuse_if (is_empty password) share_password_required) _ h in
    let wrong = refused_not (not (e.compare_password hash password)) share_password_invalid h1 in
    right hash (refused_not (is_empty password) share_password_required given) (ground arith)

pub ensure_share_accessible-IsAccessible :
    (e : Environment) (share : ShareLink) (password : Text) {t : Unit {0}}
    → ensure_share_accessible e share password ≡ ok t
    → IsAccessible e share password
unfolding ensure_share_accessible
ensure_share_accessible-IsAccessible e share password h =
    let (_, in_time, h1) =
      >>=-eq-ok (refuse_if (is_past e.now share.expires_at) share_expired) _ h in
    record {
      in_time = refused_not (is_past e.now share.expires_at) share_expired in_time;
      known = ensure_password-IsPassword e password share.password_hash h1;
    }

token_ttl-InTime :
    (now : ℕ) (at : Option ℕ) (r : Redirect)
    → token_ttl now at ≡ ok r.ttl
    → InTime now at (download r)
unfolding token_ttl
token_ttl-InTime now none r h = omega (arith, ok_injective h)
token_ttl-InTime now (some at) r h = elim (Bool-cases (leb at now)) [
  | inl x ↦ absurd (cc (rw x at h))
  | inr x ↦ elim (Bool-cases (ltb (at - now) five_minutes)) [
    | inl y ↦ let same = ok_injective (rw (x, y) at h) in ground (arith, same)
    | inr y ↦ let same = ok_injective (rw (x, y) at h) in ground (arith, same)
  ]
]

-- What a download of a target is.
pub record IsDownload (e : Environment) (share : ShareLink) (target : ShareTarget) (o : Opened)
    : Type 0 where
  pub redirect : Redirect
  pub same : o ≡ download redirect
  pub path : normalize_virtual_path target.virtual_path ≡ ok redirect.path
  pub timed : InTime e.now share.expires_at (download redirect)

pub download_of-IsDownload :
    (e : Environment) (share : ShareLink) (target : ShareTarget) (disposition : Text) {o : Opened}
    → download_of e share target disposition ≡ ok o
    → IsDownload e share target o
unfolding download_of build_share_download_url
download_of-IsDownload e share target disposition h =
    let (r, built, h1) =
      >>=-eq-ok
        (build_share_download_url e target.source.id target.inner_path target.virtual_path
          disposition share.expires_at)
        _ h in
    let (ttl, timed, h2) = >>=-eq-ok (token_ttl e.now share.expires_at) _ built in
    let (file, _, h3) = >>=-eq-ok (normalize_virtual_path target.inner_path) _ h2 in
    let (path, there, h4) = >>=-eq-ok (normalize_virtual_path target.virtual_path) _ h3 in
    let (token, _, h5) =
      >>=-eq-ok
        (e.issue_token target.source.id file
          (if is_empty disposition then txt "attachment" else disposition) ttl)
        _ h4 in
    let made = ok_injective h5 in
    record {
      redirect = r;
      same = sym (ok_injective h1);
      path = there ∙ ap (λ x. ok x.path) made;
      timed = token_ttl-InTime e.now share.expires_at r (timed ∙ ap (λ x. ok x.ttl) made);
    }

share_target_from_node-path :
    (e : Environment) (node : SharedNode) {t : ShareTarget}
    → share_target_from_node e node ≡ ok t
    → t.virtual_path ≡ node.path
unfolding share_target_from_node
share_target_from_node-path e node h = elim (Option-cases node.source_id) [
  | inl x ↦ absurd (cc (rw (share_target_from_node, x) at h))
  | inr (id, x) ↦
      let (_, _, h1) =
        >>=-eq-ok (refuse_if node.unavailable file_not_found) _
          (rw (share_target_from_node, x) at h) in
      let (source, _, h2) = >>=-eq-ok (source_missing (e.find_source id)) _ h1 in
      let (inner, _, h3) = >>=-eq-ok (share_inner_path_for_source source node.path) _ h2 in
      sym (ap (λ y. y.virtual_path) (ok_injective h3))
]

legacy_target-path :
    (e : Environment) (root : ShareTarget) (path : Text) {t : ShareTarget}
    → legacy_target e root path ≡ ok t
    → t.virtual_path ≡ path
unfolding legacy_target
legacy_target-path e root path h =
    let (inner, _, h1) = >>=-eq-ok (share_inner_path_for_source root.source path) _ h in
    let (found, _, h2) = >>=-eq-ok (inspect_target e root.source inner) _ h1 in
    sym (ap (λ y. y.virtual_path) (ok_injective h2))

node_target-path :
    (e : Environment) (r : Result SharedNode) {t : ShareTarget}
    → node_target e r ≡ ok t
    → (node : SharedNode) × (r ≡ ok node) × (t.virtual_path ≡ node.path)
unfolding node_target
node_target-path e (err x) h = absurd (cc)
node_target-path e (ok node) h =
    let (_, _, h1) = >>=-eq-ok (refuse_if node.unavailable file_not_found) _ h in
    (node, refl, share_target_from_node-path e node h1)

reader_for-some :
    (e : Environment) (root : ShareTarget) {r : NodeReader}
    → reader_for e root ≡ some r
    → e.reader ≡ some r
unfolding reader_for
reader_for-some e root h = elim (Bool-cases root.node_first) [
  | inl x ↦ rw x at h
  | inr x ↦ absurd (cc (rw x at h))
]

pub renormalized :
    (p : Text) {q : Text} → normalize_virtual_path p ≡ ok q → normalize_virtual_path q ≡ ok q
renormalized p h = normalize_virtual_path_normal (normalize_virtual_path-IsNormal p h)

target_at-path :
    (e : Environment) (root : ShareTarget) (path : Text) (o : Option NodeReader) {t : ShareTarget}
    → IsHonest e
    → normalize_virtual_path path ≡ ok path
    → reader_for e root ≡ o
    → target_at e root path o ≡ ok t
    → t.virtual_path ≡ path
unfolding target_at IsHonest
target_at-path e root path none honest normal same h = legacy_target-path e root path h
target_at-path e root path (some r) honest normal same h =
    let (node, found, at) = node_target-path e (r.resolve_node path) h in
    at ∙ honest r path node (reader_for-some e root same) normal found

pub resolve_share_path_target-path :
    (e : Environment) (root : ShareTarget) (actual : Text) {t : ShareTarget}
    → IsHonest e
    → resolve_share_path_target e root actual ≡ ok t
    → normalize_virtual_path actual ≡ ok t.virtual_path
unfolding resolve_share_path_target
resolve_share_path_target-path e root actual honest h =
    let (normalized, n, h1) = >>=-eq-ok (normalize_virtual_path actual) _ h in
    let (_, _, h2) =
      >>=-eq-ok (refuse_if (not (is_within_share_root root.virtual_path normalized)) path_invalid) _
        h1 in
    let at =
      target_at-path e root normalized (reader_for e root) honest (renormalized actual n) refl h2 in
    n ∙ ap ok (sym at)
