-- ===== src/Auth/Cookie/Scope.antt =====
-- A cookie's domain names one workspace, to the server and to the browser.
use mathlib.Core.List.{reverse, reverse-append, reverse-reverse, append_cancel_right}
use lecrm.Common.{
  ℕ, false, none, some, List, [], ◌∷◌, ◌++◌, is_empty, eqb_iff, ok, ◌≡◌, ◌⊎◌, inl, inr, refl, sym,
  ap, ◌∙◌, arith, append_assoc, chain_parts, subst,
}
use lecrm.Common.Text.{to_lower, trim_space}
use lecrm.Encoding.Split.{Free, append-split_unique}
use lecrm.Auth.Codec.{split_two, split_two-append}
use lecrm.Auth.SessionV2.{strip_prefix}
use lecrm.Auth.Cookie.{
  CookieScope, Cookie, contains, scoped_domain, build_session_cookie, strip_suffix, reversed,
  single_label, before_colon, without_port, subdomain_from_host, split_last, strip_port,
  subdomain_of,
}

pub strip_prefix-append : (p s : List ℕ) → strip_prefix p (p ++ s) ≡ some s
strip_prefix-append [] s = refl
strip_prefix-append (b ∷ p) s = ground (arith, strip_prefix-append p s)

strip_suffix-append : (a suffix : List ℕ) → strip_suffix suffix (a ++ suffix) ≡ some a
unfolding strip_suffix
strip_suffix-append a suffix =
    ap (λ s. reversed (strip_prefix (reverse suffix) s)) (reverse-append a suffix)
    ∙ ap reversed (strip_prefix-append (reverse suffix) (reverse a))
    ∙ ap (λ s. some s) (reverse-reverse a)

contains-Free : (b : ℕ) (s : List ℕ) → contains b s ≡ false → Free b s
contains-Free b [] h = tt
contains-Free b (c ∷ s) h = ((λ e. ground (arith, eqb_iff c b)), contains-Free b s (ground arith))

Free-contains : (b : ℕ) (s : List ℕ) → Free b s → contains b s ≡ false
Free-contains b [] h = refl
Free-contains b (c ∷ s) h = ground (arith, eqb_iff c b, Free-contains b s h.1)

split_two_whole : (sep : ℕ) (s : List ℕ) → Free sep s → split_two sep s ≡ none
unfolding split_two
split_two_whole sep [] h = refl
split_two_whole sep (b ∷ s) h = ground (arith, eqb_iff b sep, split_two_whole sep s h.1)

split_last_whole : (sep : ℕ) (s : List ℕ) → Free sep s → split_last sep s ≡ none
unfolding split_last
split_last_whole sep [] h = refl
split_last_whole sep (b ∷ s) h = ground (arith, eqb_iff b sep, split_last_whole sep s h.1)

split_last-append :
    (sep : ℕ) (before after : List ℕ)
    → Free sep after
    → split_last sep (before ++ sep ∷ after) ≡ some (before, after)
unfolding split_last
split_last-append sep [] after h = ground (arith, eqb_iff sep sep, split_last_whole sep after h)
split_last-append sep (b ∷ before) after h = ground (arith, split_last-append sep before after h)

-- The parts of a domain that is given out.
pub scoped_domain_parts :
    (s : CookieScope) (d : List ℕ)
    → scoped_domain s ≡ ok d
    → (d ≡ s.workspace_subdomain ++ b'.' ∷ s.domain_tld)
      × (is_empty s.workspace_subdomain ≡ false)
      × (contains b'.' s.workspace_subdomain ≡ false)
      × (is_empty s.domain_tld ≡ false)
unfolding scoped_domain
scoped_domain_parts s d good = ground arith

-- A host and the top-level domain are written as browsers send them.
pub record IsPlain (d tld : List ℕ) : Type 0 where
  pub domain_lower : to_lower d ≡ d
  pub domain_trimmed : trim_space d ≡ d
  pub no_colon : Free b':' d
  pub tld_lower : to_lower tld ≡ tld
  pub tld_trimmed : trim_space tld ≡ tld

-- A host with or without a port.
abbrev pub Names : List ℕ → List ℕ → Type 0
Names host d =
    (host ≡ d) ⊎ ((port : List ℕ) × (host ≡ d ++ b':' ∷ port) × Free b':' port × Free b']' port)

given_append : (a rest : List ℕ) → is_empty a ≡ false → is_empty (a ++ rest) ≡ false
given_append [] rest h = cc
given_append (b ∷ a) rest h = refl

module _ (s : CookieScope) (d : List ℕ) (good : scoped_domain s ≡ ok d)
    (plain : IsPlain d s.domain_tld) where
  label_found : single_label (strip_suffix (b'.' ∷ s.domain_tld) d) ≡ some s.workspace_subdomain
  label_found =
      let (whole, given, flat, top) = scoped_domain_parts s d good in
      ground
        (arith, whole, given, flat, strip_suffix-append s.workspace_subdomain (b'.' ∷ s.domain_tld))

  domain_given : is_empty d ≡ false
  domain_given =
      let (whole, given, flat, top) = scoped_domain_parts s d good in
      ap is_empty whole ∙ given_append s.workspace_subdomain (b'.' ∷ s.domain_tld) given

  before_port : (host : List ℕ) → Names host d → before_colon host (split_two b':' host) ≡ d
  before_port host (inl whole) =
      rw whole (ap (before_colon d) (split_two_whole b':' d plain.no_colon))
  before_port host (inr (port, ported, one, bare)) =
      rw ported (ap (before_colon (d ++ b':' ∷ port)) (split_two-append b':' d port plain.no_colon))

  port_stripped : (host : List ℕ) → Names host d → strip_port host ≡ d
  unfolding strip_port
  port_stripped host (inl whole) =
      rw whole (ap (without_port d) (split_last_whole b':' d plain.no_colon))
  port_stripped host (inr (port, ported, one, bare)) = rw ported (
      ap (without_port (d ++ b':' ∷ port)) (split_last-append b':' d port one)
      ∙ ground (arith, domain_given, Free-contains b']' port bare))

  from_host :
      (host : List ℕ)
      → Names host d
      → subdomain_from_host host s.domain_tld ≡ some s.workspace_subdomain
  unfolding subdomain_from_host
  from_host host named = rw (before_port host named) (
      rw plain.domain_trimmed
        (rw plain.domain_lower (rw plain.tld_trimmed (rw plain.tld_lower label_found))))

  of_host :
      (host : List ℕ) → Names host d → subdomain_of host s.domain_tld ≡ some s.workspace_subdomain
  unfolding subdomain_of
  of_host host named = rw (port_stripped host named) (
      rw plain.domain_lower (
        rw plain.tld_lower
          (ground (arith, domain_given, label_found, (scoped_domain_parts s d good).3))))

-- The domain of a cookie that is given out, with or without a port, names the workspace of the cookie
-- to both readers of a host: the login and the middleware. The domain is in lower case and has no
-- spaces and no colon.
pub subdomain-scoped_domain :
    (s : CookieScope) (d host : List ℕ)
    → scoped_domain s ≡ ok d
    → IsPlain d s.domain_tld
    → Names host d
    → (subdomain_from_host host s.domain_tld ≡ some s.workspace_subdomain)
      × (subdomain_of host s.domain_tld ≡ some s.workspace_subdomain)
subdomain-scoped_domain s d host good plain named =
    (from_host s d good plain host named, of_host s d good plain host named)

-- The hosts that a browser sends a cookie with this domain to.
abbrev pub Matches : List ℕ → List ℕ → Type 0
Matches domain host = (host ≡ domain) ⊎ ((p : List ℕ) × (host ≡ p ++ b'.' ∷ domain))

cookie_domain :
    (s : CookieScope) (value : List ℕ) (cookie : Cookie)
    → build_session_cookie s value ≡ ok cookie
    → scoped_domain s ≡ ok cookie.domain
unfolding build_session_cookie
cookie_domain s value cookie made =
    let (domain, scoped, built) = chain_parts (scoped_domain s) _ made in
    ground (arith, scoped, built)

not-Free-dotted : (p q : List ℕ) → ¬ Free b'.' (p ++ b'.' ∷ q)
not-Free-dotted [] q h = h.0 refl
not-Free-dotted (b ∷ p) q h = not-Free-dotted p q h.1

-- A session cookie that is given out is sent to no other workspace: if its domain matches that of
-- another scope under the same top-level domain, the two are of one workspace.
pub build_session_cookie-Matches :
    (s t : CookieScope) (value : List ℕ) (cookie : Cookie) (d : List ℕ)
    → build_session_cookie s value ≡ ok cookie
    → scoped_domain t ≡ ok d
    → s.domain_tld ≡ t.domain_tld
    → Matches cookie.domain d
    → s.workspace_subdomain ≡ t.workspace_subdomain
build_session_cookie-Matches s t value cookie d made given tld matches =
    let (own, _, own_flat, _) =
      scoped_domain_parts s cookie.domain (cookie_domain s value cookie made) in
    let (other, _, other_flat, _) = scoped_domain_parts t d given in
    let same_top = other ∙ ap (λ top. t.workspace_subdomain ++ b'.' ∷ top) (sym tld) in
    let own_free = contains-Free b'.' s.workspace_subdomain own_flat in
    let other_free = contains-Free b'.' t.workspace_subdomain other_flat in
    elim matches [
      | inl same ↦
          (append-split_unique b'.' s.workspace_subdomain t.workspace_subdomain s.domain_tld
            s.domain_tld own_free other_free (sym own ∙ sym same ∙ same_top)).0
      | inr (p, under) ↦ absurd (
          not-Free-dotted p s.workspace_subdomain (
            subst (Free b'.')
              (append_cancel_right t.workspace_subdomain (p ++ b'.' ∷ s.workspace_subdomain)
                (b'.' ∷ s.domain_tld)
                (sym same_top
                  ∙ under
                  ∙ ap (λ rest. p ++ b'.' ∷ rest) own
                  ∙ sym (append_assoc p (b'.' ∷ s.workspace_subdomain) (b'.' ∷ s.domain_tld))))
              other_free))
    ]
