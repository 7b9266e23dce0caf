-- ===== src/Http/Render.antt =====
-- internal/http/render.go: what the pages are given to show.
use shareserver.Base.{
  ℕ, Option, [], Text, codes, is_empty, text_eq, has_prefix, drop, if◌then◌else◌,
}
use shareserver.Codec.{decimal}
use shareserver.Http.Sessions.{Session}
use shareserver.Http.I18n.{Members, PageContext, page_context, translate}

-- `strings.TrimPrefix(s, "# ")`
abbrev pub trim_heading : Text → Text
trim_heading s = if has_prefix (codes "# ") s then drop 2 s else s

-- The catalogs: that of Korean and that of English.
pub record Catalogs : Type 0 where
  pub korean : Members
  pub english : Members

-- `catalogs[code]`, for the two codes that a page context can have.
unfoldable pub catalog_of : Catalogs → Text → Members
catalog_of cs code = if text_eq code (codes "ko") then cs.korean else cs.english

-- `T` of a page, without variables.
abbrev pub text_for : Catalogs → PageContext → Text → Text
text_for cs p key = translate (catalog_of cs p.language) cs.english key []

abbrev titled : Text → PageContext → PageContext
titled t p = record p { title = t }

pub record ErrorPage : Type 0 where
  pub context : PageContext
  pub status_code : ℕ
  pub message : Text
  pub message_key : Text
  pub redirect_seconds : ℕ

module _ (cs : Catalogs) (s : Session) (cookie : Option Text) where
  -- A page whose title is a translated heading.
  abbrev with_heading : Text → PageContext → PageContext
  with_heading key p = titled (trim_heading (text_for cs p key)) p

  unfoldable pub render_upload_page : PageContext
  render_upload_page = with_heading (codes "upload.title") (page_context s cookie [])

  -- The title of the selected Share, if it has one.
  unfoldable pub render_archive_page : Text → PageContext
  render_archive_page share_title =
      let p = page_context s cookie share_title in
      if is_empty share_title then with_heading (codes "share.sharesTitle") p else p

  unfoldable pub render_api_page : PageContext
  render_api_page = page_context s cookie (codes "API")

  unfoldable pub render_admin_login_page : PageContext
  render_admin_login_page = with_heading (codes "admin.loginTitle") (page_context s cookie [])

  unfoldable pub render_admin_dashboard_page : PageContext
  render_admin_dashboard_page =
      with_heading (codes "admin.title") (page_context s cookie (codes "Admin"))

  unfoldable pub render_admin_shares_page : PageContext
  render_admin_shares_page =
      with_heading (codes "admin.sharesTitle") (page_context s cookie (codes "Shares"))

  unfoldable pub render_error_page : ℕ → Text → Text → ℕ → ErrorPage
  render_error_page status message key seconds =
      let p = page_context s cookie (decimal status) in
      record {
        context = p;
        status_code = status;
        message = if is_empty key then message else text_for cs p key;
        message_key = key;
        redirect_seconds = seconds;
      }
