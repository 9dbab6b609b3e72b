-- ===== src/Shares/Open.antt =====
-- Opening and deleting a share: `Open`, `buildShareDownloadURL` and `Delete` of
-- backend/internal/application/service/share_service.go, and the queries of share_repo_impl.go. The
-- listing of an opened directory, its order and its pages are left out here, and so are audit events.
use yunxia.Prelude.{
  ℕ, ◌-◌, ◌*◌, List, [], ◌∷◌, true, not, any, keep, Text, txt, str_eq, is_empty, ◌==◌, ltb, leb,
  if◌then◌else◌, Option, none, some, Result, ok, err, Error, not_found, share_expired, ◌>>=◌, ◌>>◌,
}
use yunxia.Permission.{RequestAuth}
use yunxia.Vfs.Path.{normalize_virtual_path}
use yunxia.Shares.{
  ShareLink, ShareTarget, Environment, ensure_share_accessible, authorize_share_ownership,
  resolve_share_target_path,
}
use yunxia.Shares.Targets.{resolve_share_target, resolve_share_path_target}

-- What a download address holds, and the token's time to live.
pub record Redirect : Type 0 where
  pub source_id : ℕ
  pub file_path : Text
  pub path : Text
  pub disposition : Text
  pub ttl : ℕ
  pub token : Text

-- `ShareOpenResult`: a download, or a directory to list.
pub data Opened : Type 0 where
  download : Redirect → Opened
  directory : Text → ShareTarget → ShareTarget → Opened

abbrev pub five_minutes : ℕ
five_minutes = 5 * 60 * 1000000000

-- The time to live of a token for a share, if it has one.
unfoldable pub token_ttl : ℕ → Option ℕ → Result ℕ
token_ttl now none = ok five_minutes
token_ttl now (some at) =
    if leb at now
    then err share_expired
    else ok (if ltb (at - now) five_minutes then at - now else five_minutes)

-- `buildShareDownloadURL`
unfoldable pub build_share_download_url :
    Environment → ℕ → Text → Text → Text → Option ℕ → Result Redirect
unfolding token_ttl
build_share_download_url e source_id file_path virtual_path disposition expires_at = do
  ttl ← token_ttl e.now expires_at
  file ← normalize_virtual_path file_path
  path ← normalize_virtual_path virtual_path
  let kind = if is_empty disposition then txt "attachment" else disposition
  token ← e.issue_token source_id file kind ttl
  ok (record {
    source_id = source_id;
    file_path = file;
    path = path;
    disposition = kind;
    ttl = ttl;
    token = token;
  })

unfoldable pub first_by_token : Text → List ShareLink → Result ShareLink
first_by_token token [] = err not_found
first_by_token token (s ∷ ss) =
    let rest = first_by_token token ss in if str_eq s.token token then ok s else rest

unfoldable pub download_of : Environment → ShareLink → ShareTarget → Text → Result Opened
unfolding build_share_download_url
download_of e share target disposition = do
  r ←
      build_share_download_url e target.source.id target.inner_path target.virtual_path disposition
        share.expires_at
  ok (download r)

unfoldable pub open_inside : Environment → ShareLink → ShareTarget → Text → Text → Result Opened
unfolding download_of
open_inside e share root relative_path disposition = do
  asked ← resolve_share_target_path root.virtual_path relative_path
  current ← resolve_share_path_target e root (asked.0)
  if current.is_dir
      then ok (directory (asked.1) root current)
      else download_of e share current disposition

unfoldable pub open_target : Environment → ShareLink → Text → Text → ShareTarget → Result Opened
unfolding download_of open_inside
open_target e share relative_path disposition root =
    if root.is_dir
    then open_inside e share root relative_path disposition
    else download_of e share root disposition

-- `Open`, and `FindByToken` with the error of its query, if any
unfoldable pub find_by_token : Option Error → Text → List ShareLink → Result ShareLink
unfolding first_by_token
find_by_token none token ss = first_by_token token ss
find_by_token (some x) token ss = err x

unfoldable pub open_share :
    Environment → Option Error → List ShareLink → Text → Text → Text → Text → Result Opened
unfolding open_target find_by_token
open_share e outage shares token password relative_path disposition = do
  share ← find_by_token outage token shares
  ensure_share_accessible e share password
  root ← resolve_share_target e share
  open_target e share relative_path disposition root

unfoldable pub first_by_id : ℕ → List ShareLink → Result ShareLink
first_by_id id [] = err not_found
first_by_id id (s ∷ ss) = let rest = first_by_id id ss in if s.id == id then ok s else rest

-- `Delete` of the repository; the first error is that of its query, if any.
unfoldable pub delete_row : Option Error → ℕ → List ShareLink → Result (List ShareLink)
delete_row (some x) id ss = err x
delete_row none id ss =
    if any (λ s. s.id == id) ss then ok (keep (λ s. not (s.id == id)) ss) else err not_found

abbrev pub or_outage {ℓ} : {A : Type ℓ} → Option Error → Result A → Result A
or_outage none r = r
or_outage (some x) r = err x

unfoldable pub delete_check :
    Option RequestAuth → Option Error → Option Error → ℕ → List ShareLink → Result (List ShareLink)
unfolding first_by_id delete_row
delete_check auth find_outage delete_outage id shares = do
  share ← or_outage find_outage (first_by_id id shares)
  authorize_share_ownership auth share true
  delete_row delete_outage id shares

-- `Delete`
unfoldable pub delete_share :
    Option RequestAuth
    → Option Error
    → Option Error
    → ℕ
    → List ShareLink
    → List ShareLink × Result ℕ
unfolding delete_check
delete_share auth find_outage delete_outage id shares =
    elim (delete_check auth find_outage delete_outage id shares) [
      | err x ↦ (shares, err x)
      | ok ss ↦ (ss, ok id)
    ]
