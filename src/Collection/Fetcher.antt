-- ===== src/Collection/Fetcher.antt =====
-- src/mei/infrastructure/collection/http_fetcher.py: one URL is fetched under the policy against
-- requests to internal hosts. A URL is taken as `urlparse` reads it; the resolver of names and the
-- server at each hop are parameters.
pub mod Safety
use text.Mathlib.Text.{starts_with}
use middle_east_geopolitic.Common.{
  zero, none, some, length, ◌++◌, ltb, str_elem, if◌then◌else◌, [], suc, ◌||◌, str_eq, false, ◌∷◌,
  String, ℕ, List, Option, Bool,
}
use middle_east_geopolitic.Common.Result.{
  ◌>>=◌, fetch, ◌>>◌, unsupported_url, ok, err, require, Result,
}

-- The scheme and the host name, `none` where there is none.
pub record Url : Type 0 where
  pub scheme : String
  pub hostname : Option String
  pub rest : String

-- What `ipaddress` says of one address.
pub record Address : Type 0 where
  pub is_private : Bool
  pub is_loopback : Bool
  pub is_link_local : Bool
  pub is_reserved : Bool
  pub is_multicast : Bool
  pub is_unspecified : Bool

-- `socket.getaddrinfo`: the addresses of a name, or an `OSError`.
abbrev pub Resolver : Type 0
Resolver = String → Option (List Address)

-- What a request ends with: an error of the library, a redirect with its target joined to the URL of
-- the response, or a response with its status, its media type in lower case, and its chunks of bytes.
pub data Reply : Type 0 where
  broken : Reply
  redirect : Option Url → Reply
  response : ℕ → String → List (List ℕ) → Reply

pub record FetchResult : Type 0 where
  pub url : Url
  pub status_code : ℕ
  pub content_type : String
  pub body : List ℕ

abbrev pub allowed_schemes : List String
allowed_schemes = "http" ∷ "https" ∷ []

abbrev pub allowed_content_type_prefixes : List String
allowed_content_type_prefixes =
    "text/html" ∷ "application/xhtml+xml" ∷ "text/plain" ∷ "application/xml" ∷ "text/xml"
    ∷ "application/rss+xml" ∷ "application/atom+xml" ∷ []

abbrev pub max_redirects : ℕ
max_redirects = 5

abbrev pub max_response_bytes : ℕ
max_response_bytes = 20971520

abbrev pub is_disallowed : Address → Bool
is_disallowed a =
    a.is_private || a.is_loopback || a.is_link_local || a.is_reserved || a.is_multicast
    || a.is_unspecified

-- The loop over the addresses.
unfoldable pub check_addresses : List Address → Result (Unit {0})
check_addresses [] = ok tt
check_addresses (a ∷ rest) =
    let checked = check_addresses rest in if is_disallowed a then err unsupported_url else checked

abbrev pub check_resolved : Option (List Address) → Result (Unit {0})
check_resolved none = err unsupported_url
check_resolved (some as_list) = check_addresses as_list

-- The host name, which must be there and not be empty.
abbrev pub check_host : List String → Resolver → Option String → Result (Unit {0})
check_host hosts resolve none = err unsupported_url
check_host hosts resolve (some h) =
    if str_eq h ""
    then err unsupported_url
    else if str_elem h hosts
    then ok tt
    else check_resolved (resolve h)

-- `hosts` is the setting of the private hosts that are allowed.
unfoldable pub validate_url_security : List String → Resolver → Url → Result (Unit {0})
validate_url_security hosts resolve u =
    require (str_elem u.scheme allowed_schemes) unsupported_url
    >> check_host hosts resolve u.hostname

-- The loop over the chunks, from the body so far.
unfoldable pub read_body : List ℕ → List (List ℕ) → Result (List ℕ)
read_body body [] = ok body
read_body body (chunk ∷ chunks) =
    let rest = read_body (body ++ chunk) chunks in
    if ltb max_response_bytes (length (body ++ chunk)) then err fetch else rest

-- `content_type.startswith(ALLOWED_CONTENT_TYPE_PREFIXES)`
abbrev pub starts_with_any : String → List String → Bool
starts_with_any t [] = false
starts_with_any t (p ∷ ps) = starts_with t p || starts_with_any t ps

abbrev pub is_content_allowed : String → Bool
is_content_allowed t = str_eq t "" || starts_with_any t allowed_content_type_prefixes

-- The response that is no redirect.
unfoldable pub accept : Url → ℕ → String → List (List ℕ) → Result FetchResult
accept u status content_type chunks =
    require (ltb status 400) fetch
    >> require (is_content_allowed content_type) unsupported_url
    >> read_body [] chunks
    >>= λ body.
        ok (record { url = u; status_code = status; content_type = content_type; body = body })

-- A pass of the loop after the request; `continue` is the pass at the target of a redirect. With the
-- outcome comes the list of the URLs that were requested, in order.
abbrev pub after_reply :
    (Url → Result FetchResult × List Url) → Url → Reply → Result FetchResult × List Url
after_reply continue u broken = (err fetch, u ∷ [])
after_reply continue u (redirect none) = (err fetch, u ∷ [])
after_reply continue u (redirect (some target)) = let (r, us) = continue target in (r, u ∷ us)
after_reply continue u (response status content_type chunks) =
    (accept u status content_type chunks, u ∷ [])

abbrev pub when_valid :
    Result (Unit {0}) → Result FetchResult × List Url → Result FetchResult × List Url
when_valid (err e) request = (err e, [])
when_valid (ok _) request = request

-- The loop, with `left` passes left. The server may answer each pass differently.
unfoldable pub follow :
    List String → Resolver → (ℕ → Url → Reply) → ℕ → Url → Result FetchResult × List Url
follow hosts resolve server zero u = (err fetch, [])
follow hosts resolve server (suc left) u =
    when_valid (validate_url_security hosts resolve u)
      (after_reply (follow hosts resolve server left) u (server left u))

unfoldable pub fetch_url :
    List String → Resolver → (ℕ → Url → Reply) → Url → Result FetchResult × List Url
fetch_url hosts resolve server u = follow hosts resolve server (suc max_redirects) u
