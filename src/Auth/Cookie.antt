-- ===== src/Auth/Cookie.antt =====
-- Cookies and the workspace that a host names (apps/api/internal/auth/cookie.go;
-- apps/api/internal/workspace/middleware.go: subdomainOf, stripPort).
pub mod Scope
use mathlib.Core.List.{reverse}
use lecrm.Common.{
  ℕ, ◌+◌, Bool, true, false, ◌&&◌, ◌||◌, not, Option, none, some, List, [], ◌∷◌, ◌++◌, any,
  is_empty, eqb, if◌then◌else◌, Result, ok, err, ◌>>=◌, ◌>>◌,
}
use lecrm.Common.Int.{ℤ, pos, negsuc}
use lecrm.Common.Text.{codes, to_lower, trim_space}
use lecrm.Auth.Codec.{split_two}
use lecrm.Auth.SessionV2.{strip_prefix}

pub record CookieScope : Type 0 where
  pub workspace_subdomain : List ℕ
  pub domain_tld : List ℕ
  pub secure : Bool

pub data CookieError : Type 0 where
  subdomain_required subdomain_dotted tld_required tld_dotted : CookieError

-- The fields of a `http.Cookie` that are set; each is HttpOnly and SameSite=Strict.
pub record Cookie : Type 0 where
  pub name : List ℕ
  pub value : List ℕ
  pub path : List ℕ
  pub domain : List ℕ
  pub max_age : ℤ
  pub secure : Bool

abbrev pub contains : ℕ → List ℕ → Bool
contains b s = any (λ c. eqb c b) s

abbrev pub starts_with_dot : List ℕ → Bool
starts_with_dot [] = false
starts_with_dot (b ∷ s) = eqb b b'.'

-- `scopedDomain`
unfoldable pub scoped_domain : CookieScope → Result CookieError (List ℕ)
scoped_domain s =
    if is_empty s.workspace_subdomain
    then err subdomain_required
    else if contains b'.' s.workspace_subdomain || contains b'*' s.workspace_subdomain
    then err subdomain_dotted
    else if is_empty s.domain_tld
    then err tld_required
    else if starts_with_dot s.domain_tld
    then err tld_dotted
    else ok (s.workspace_subdomain ++ b'.' ∷ s.domain_tld)

abbrev pub session_cookie_name : List ℕ
session_cookie_name = codes "lecrm_session"

abbrev pub state_cookie_name : List ℕ
state_cookie_name = codes "lecrm_oauth_state"

abbrev cookie_at : List ℕ → List ℕ → ℤ → CookieScope → List ℕ → Cookie
cookie_at name value age s domain = record {
  name = name;
  value = value;
  path = b'/' ∷ [];
  domain = domain;
  max_age = age;
  secure = s.secure;
}

-- `BuildSessionCookie`
unfoldable pub build_session_cookie : CookieScope → List ℕ → Result CookieError Cookie
build_session_cookie s value = do
  domain ← scoped_domain s
  ok (cookie_at session_cookie_name value (pos 43200) s domain)

-- `BuildStateCookie`
unfoldable pub build_state_cookie : CookieScope → List ℕ → Result CookieError Cookie
build_state_cookie s value = do
  domain ← scoped_domain s
  ok (cookie_at state_cookie_name value (pos 600) s domain)

-- `ClearSessionCookie`
unfoldable pub clear_session_cookie : CookieScope → Result CookieError Cookie
clear_session_cookie s = do
  domain ← scoped_domain s
  ok (cookie_at session_cookie_name [] (negsuc 0) s domain)

abbrev pub reversed : Option (List ℕ) → Option (List ℕ)
reversed none = none
reversed (some s) = some (reverse s)

-- `strings.HasSuffix` and `strings.TrimSuffix` in one.
unfoldable pub strip_suffix : List ℕ → List ℕ → Option (List ℕ)
strip_suffix suffix s = reversed (strip_prefix (reverse suffix) (reverse s))

-- A single label is a workspace.
abbrev pub single_label : Option (List ℕ) → Option (List ℕ)
single_label none = none
single_label (some label) = if is_empty label || contains b'.' label then none else some label

abbrev pub before_colon : List ℕ → Option (List ℕ × List ℕ) → List ℕ
before_colon host none = host
before_colon host (some (before, after)) = before

-- `SubdomainFromHost`; `none` is its error.
unfoldable pub subdomain_from_host : List ℕ → List ℕ → Option (List ℕ)
subdomain_from_host host tld =
    let name = to_lower (trim_space (before_colon host (split_two b':' host))) in
    single_label (strip_suffix (b'.' ∷ to_lower (trim_space tld)) name)

abbrev after_last : ℕ → ℕ → List ℕ → Option (List ℕ × List ℕ) → Option (List ℕ × List ℕ)
after_last sep b s none = if eqb b sep then some ([], s) else none
after_last sep b s (some (before, after)) = some (b ∷ before, after)

-- Around the last separator.
unfoldable pub split_last : ℕ → List ℕ → Option (List ℕ × List ℕ)
split_last sep [] = none
split_last sep (b ∷ s) = after_last sep b s (split_last sep s)

abbrev pub without_port : List ℕ → Option (List ℕ × List ℕ) → List ℕ
without_port host none = host
without_port host (some (before, after)) =
    if not (is_empty before) && not (contains b']' after) then before else host

-- `stripPort`
unfoldable pub strip_port : List ℕ → List ℕ
strip_port host = without_port host (split_last b':' host)

-- `subdomainOf`
unfoldable pub subdomain_of : List ℕ → List ℕ → Option (List ℕ)
subdomain_of host tld =
    let name = to_lower (strip_port host) in
    if is_empty name || is_empty (to_lower tld)
    then none
    else single_label (strip_suffix (b'.' ∷ to_lower tld) name)
