-- ===== src/Shares/Confined.antt =====
-- A visitor stays in the share, and comes in only while it is open to them (`Open` in
-- backend/internal/application/service/share_service.go).
use yunxia.Prelude.{
  ℕ, List, [], ◌++◌, Bool, true, false, Text, if◌then◌else◌, Option, Result, ok, Error, >>=-eq-ok,
  ok_injective, ◌⊎◌, ◌≡◌, sym, ap, ◌∙◌, inl, inr, Bool-cases,
}
use mathlib.Core.List.{append-nil}
use mathlib.Core.Path.{subst}
use yunxia.Vfs.Clean.Segments.{segments, segments-absolute, AllSegments-append}
use yunxia.Vfs.Path.{normalize_virtual_path}
use yunxia.Vfs.Path.Normal.{normalize_virtual_path-absolute, AllSegments-IsNormal}
use yunxia.Shares.{
  ShareLink, ShareTarget, Environment, ensure_share_accessible, resolve_share_target_path,
}
use yunxia.Shares.Targets.{resolve_share_target, resolve_share_path_target}
use yunxia.Shares.Paths.{IsResolved, resolve_share_target_path-IsResolved}
use yunxia.Shares.Open.{
  Opened, directory, download_of, open_inside, open_target, find_by_token, open_share,
}
use yunxia.Shares.Access.{
  IsInside, IsAccessible, InTime, IsHonest, opened_path, download_of-IsDownload, renormalized,
  ensure_share_accessible-IsAccessible, resolve_share_path_target-path,
}

-- What lies where a share resolves a path lies inside of its root.
resolved-IsInside :
    (outer requested actual relative path inner : Text)
    → IsResolved outer requested actual relative
    → normalize_virtual_path actual ≡ ok path
    → normalize_virtual_path inner ≡ ok path
    → IsInside outer inner
resolved-IsInside outer requested actual relative path inner i n m =
    let hr = AllSegments-IsNormal i.normal_root in
    let hq = AllSegments-IsNormal i.normal_relative in
    let all = AllSegments-append (segments i.root) (segments relative) hr hq in
    let same =
      normalize_virtual_path-absolute (segments i.root ++ segments relative) all
        (ap normalize_virtual_path (sym i.actual_path) ∙ n) in
    record {
      root = i.root;
      path = path;
      outer_normal = i.rooted;
      inner_normal = m;
      leads = (
        segments relative,
        ap segments same ∙ segments-absolute (segments i.root ++ segments relative) all,
      );
    }

-- How a request that is answered was answered.
pub record IsOpened (e : Environment) (outage : Option Error) (shares : List ShareLink)
    (token password : Text) (o : Opened) : Type 0 where
  pub share : ShareLink
  pub root : ShareTarget
  pub found : find_by_token outage token shares ≡ ok share
  pub accessible : IsAccessible e share password
  pub resolved : resolve_share_target e share ≡ ok root
  pub inside : IsInside root.virtual_path (opened_path o)
  pub timed : InTime e.now share.expires_at o

directory-InTime :
    (now : ℕ) (at : Option ℕ) (asked : Text) (root current : ShareTarget)
    → InTime now at (directory asked root current)
directory-InTime now at asked root current = tt

-- The path and the time of what was opened, one with the other.
IsSafe : Environment → ShareLink → ShareTarget → Opened → Type 0
IsSafe e share root o = IsInside root.virtual_path (opened_path o) × InTime e.now share.expires_at o

open_inside-IsSafe :
    (e : Environment) (share : ShareLink) (root : ShareTarget) (relative_path disposition : Text)
    {o : Opened}
    → IsHonest e
    → open_inside e share root relative_path disposition ≡ ok o
    → IsSafe e share root o
unfolding open_inside IsSafe
open_inside-IsSafe e share root relative_path disposition {o} honest h =
    let (asked, a, h1) =
      >>=-eq-ok (resolve_share_target_path root.virtual_path relative_path) _ h in
    let (current, b, h2) = >>=-eq-ok (resolve_share_path_target e root (asked.0)) _ h1 in
    let i = resolve_share_target_path-IsResolved root.virtual_path relative_path a in
    let n = resolve_share_path_target-path e root (asked.0) honest b in
    elim (Bool-cases current.is_dir) [
      | inl x ↦
          let same = ok_injective (rw x at h2) in
          subst (IsSafe e share root) same (
            resolved-IsInside root.virtual_path relative_path (asked.0) (asked.1)
                current.virtual_path current.virtual_path i n (renormalized (asked.0) n),
            directory-InTime e.now share.expires_at (asked.1) root current,
          )
      | inr x ↦
          let d = download_of-IsDownload e share current disposition (rw x at h2) in
          let again = ok_injective (sym (renormalized (asked.0) n) ∙ d.path) in
          let m = ap normalize_virtual_path (sym again) ∙ renormalized (asked.0) n in
          subst (IsSafe e share root) (sym d.same) (
            resolved-IsInside root.virtual_path relative_path (asked.0) (asked.1)
                current.virtual_path d.redirect.path i n m,
            d.timed,
          )
    ]

either_branch :
    (b : Bool) (x y : Result Opened) {o : Opened}
    → (if b then x else y) ≡ ok o
    → (x ≡ ok o) ⊎ (y ≡ ok o)
either_branch true x y h = inl h
either_branch false x y h = inr h

open_target-IsSafe :
    (e : Environment) (share : ShareLink) (relative_path disposition : Text) (root : ShareTarget)
    {o : Opened}
    → IsHonest e
    → open_target e share relative_path disposition root ≡ ok o
    → IsSafe e share root o
unfolding open_target IsSafe
open_target-IsSafe e share relative_path disposition root honest h =
    elim (either_branch root.is_dir (open_inside e share root relative_path disposition)
      (download_of e share root disposition) h) [
        | inl x ↦ open_inside-IsSafe e share root relative_path disposition honest x
        | inr x ↦
            let d = download_of-IsDownload e share root disposition x in
            subst (IsSafe e share root) (sym d.same) (
              record {
                root = d.redirect.path;
                path = d.redirect.path;
                outer_normal = d.path;
                inner_normal = renormalized root.virtual_path d.path;
                leads = ([], sym (append-nil (segments d.redirect.path)));
              },
              d.timed,
            )
      ]

-- Where the reader, if there is one, finds by a normalized path the node that has that path, whoever
-- opens a share, for whatever path, gets something only if the token is a share's that has
-- not expired, and whose password was given if it has one. What is downloaded or listed lies at the
-- share's target or below it, and the token of a download lives no longer than the share.
pub open_share-IsOpened :
    (e : Environment) (outage : Option Error) (shares : List ShareLink)
    (token password relative_path disposition : Text) {o : Opened}
    → IsHonest e
    → open_share e outage shares token password relative_path disposition ≡ ok o
    → IsOpened e outage shares token password o
unfolding open_share IsSafe
open_share-IsOpened e outage shares token password relative_path disposition honest h =
    let (share, found, h1) = >>=-eq-ok (find_by_token outage token shares) _ h in
    let (_, passed, h2) = >>=-eq-ok (ensure_share_accessible e share password) _ h1 in
    let (root, resolved, h3) = >>=-eq-ok (resolve_share_target e share) _ h2 in
    let (inside, timed) = open_target-IsSafe e share relative_path disposition root honest h3 in
    record {
      share = share;
      root = root;
      found = found;
      accessible = ensure_share_accessible-IsAccessible e share password passed;
      resolved = resolved;
      inside = inside;
      timed = timed;
    }
