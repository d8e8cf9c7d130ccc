-- ===== src/Collection/Fetcher/Safety.antt =====
-- What a fetch may request, and what it may return.

-- The policy, said as a condition: the scheme is http or https, there is a host name, and it is one of
-- the hosts that are allowed or resolves to addresses none of which is disallowed.
use middle_east_geopolitic.Collection.Fetcher.{
  broken, response, when_valid, redirect, max_redirects, is_disallowed, max_response_bytes,
  after_reply, check_host, allowed_schemes, is_content_allowed, check_resolved, Reply, Resolver,
  Address, Url, validate_url_security, read_body, follow, fetch_url, FetchResult, check_addresses,
  accept,
}
use middle_east_geopolitic.Common.Result.{
  ok_inj, require_sound, ◌>>◌, unsupported_url, fetch, require, bind-ok, err, Result, ok, Error,
}
use middle_east_geopolitic.Common.{
  zero, ◌++◌, refl, inr, ◌∷◌, none, [], ◌⊎◌, inl, Bool-cases, false, str_eq, subst, some, suc, ◌≤◌,
  arith, All, length, Option, true, str_elem, ◌≡◌, ltb, ℕ, String, List,
}

pub record IsAllowed (hosts : List String) (resolve : Resolver) (u : Url) : Type 0 where
  pub scheme_allowed : str_elem u.scheme allowed_schemes ≡ true
  pub host : String
  pub has_host : u.hostname ≡ some host
  pub not_empty : str_eq host "" ≡ false
  pub is_public :
      (str_elem host hosts ≡ true)
      ⊎ ((addresses : List Address) × (resolve host ≡ some addresses)
          × All (λ a. is_disallowed a ≡ false) addresses)

check_addresses-All :
    (as_list : List Address)
    → check_addresses as_list ≡ ok tt
    → All (λ a. is_disallowed a ≡ false) as_list
unfolding check_addresses
check_addresses-All [] h = tt
check_addresses-All (a ∷ rest) h = elim (Bool-cases (is_disallowed a)) [
  | inl e ↦ cc (rw (e, check_addresses) at h)
  | inr e ↦ (e, check_addresses-All rest (rw (e, check_addresses) at h))
]

check_resolved-public :
    (host : String) (resolve : Resolver) (found : Option (List Address))
    → resolve host ≡ found
    → check_resolved found ≡ ok tt
    → (addresses : List Address) × (resolve host ≡ some addresses)
      × All (λ a. is_disallowed a ≡ false) addresses
check_resolved-public host resolve none e h = cc
check_resolved-public host resolve (some addresses) e h =
    (addresses, e, check_addresses-All addresses h)

check_host-IsAllowed :
    (hosts : List String) (resolve : Resolver) (u : Url) (name : Option String)
    → str_elem u.scheme allowed_schemes ≡ true
    → u.hostname ≡ name
    → check_host hosts resolve name ≡ ok tt
    → IsAllowed hosts resolve u
check_host-IsAllowed hosts resolve u none s e h = cc
check_host-IsAllowed hosts resolve u (some host) s e h = elim (Bool-cases (str_eq host "")) [
  | inl k ↦ cc (rw k at h)
  | inr k ↦
      let h1 = rw k at h in
      record {
        scheme_allowed = s;
        host = host;
        has_host = e;
        not_empty = k;
        is_public = elim (Bool-cases (str_elem host hosts)) [
          | inl m ↦ inl m
          | inr m ↦ inr (check_resolved-public host resolve (resolve host) refl (rw m at h1))
        ];
      }
]

validate_url_security-IsAllowed :
    (hosts : List String) (resolve : Resolver) (u : Url)
    → validate_url_security hosts resolve u ≡ ok tt
    → IsAllowed hosts resolve u
unfolding validate_url_security
validate_url_security-IsAllowed hosts resolve u h =
    let (_, p, q) = bind-ok (require (str_elem u.scheme allowed_schemes) unsupported_url) _ h in
    check_host-IsAllowed hosts resolve u u.hostname (require_sound _ _ p) refl q

-- What a result promises.
pub record IsFit (r : FetchResult) : Type 0 where
  pub no_error : ltb r.status_code 400 ≡ true
  pub content_allowed : is_content_allowed r.content_type ≡ true
  pub fits : length r.body ≤ max_response_bytes

read_body-fits :
    (body : List ℕ) (chunks : List (List ℕ)) (b : List ℕ)
    → length body ≤ max_response_bytes
    → read_body body chunks ≡ ok b
    → length b ≤ max_response_bytes
unfolding read_body
read_body-fits body [] b k h = subst (λ x. length x ≤ max_response_bytes) (ok_inj h) k
read_body-fits body (chunk ∷ chunks) b k h =
    elim (Bool-cases (ltb max_response_bytes (length (body ++ chunk)))) [
      | inl e ↦ cc (rw (e, read_body) at h)
      | inr e ↦ read_body-fits (body ++ chunk) chunks b (ground arith) (rw (e, read_body) at h)
    ]

accept-IsFit :
    (u : Url) (status : ℕ) (content_type : String) (chunks : List (List ℕ)) (r : FetchResult)
    → accept u status content_type chunks ≡ ok r
    → IsFit r
unfolding accept
accept-IsFit u status content_type chunks r h =
    let (body, p, q) =
      bind-ok
        (require (ltb status 400) fetch
          >> require (is_content_allowed content_type) unsupported_url
          >> read_body [] chunks)
        _ h in
    let (_, p1, p2) =
      bind-ok
        (require (ltb status 400) fetch
          >> require (is_content_allowed content_type) unsupported_url)
        _ p in
    let (_, p3, p4) = bind-ok (require (ltb status 400) fetch) _ p1 in
    subst IsFit (ok_inj q) (record {
      no_error = require_sound _ _ p3;
      content_allowed = require_sound _ _ p4;
      fits = read_body-fits [] chunks body (omega arith) p2;
    })

-- What holds of the outcome and of the list of requests.
abbrev pub IsSafe : List String → Resolver → ℕ → Result FetchResult × List Url → Type 0
IsSafe hosts resolve bound (r, us) =
    All (IsAllowed hosts resolve) us
    × (length us ≤ bound)
    × ((x : FetchResult) → r ≡ ok x → IsFit x)

no_result : (e : Error) (x : FetchResult) → ◌≡◌ {A = Result FetchResult} (err e) (ok x) → IsFit x
no_result e x h = cc

after_reply-IsSafe :
    (hosts : List String) (resolve : Resolver) (left : ℕ)
    (continue : Url → Result FetchResult × List Url) (u : Url) (reply : Reply)
    → IsAllowed hosts resolve u
    → ((v : Url) → IsSafe hosts resolve left (continue v))
    → IsSafe hosts resolve (suc left) (after_reply continue u reply)
after_reply-IsSafe hosts resolve left continue u broken a k =
    ((a, tt), omega arith, no_result fetch)
after_reply-IsSafe hosts resolve left continue u (redirect none) a k =
    ((a, tt), omega arith, no_result fetch)
after_reply-IsSafe hosts resolve left continue u (redirect (some target)) a k =
    let (h, n, f) = k target in ((a, h), omega (arith, n), f)
after_reply-IsSafe hosts resolve left continue u (response status content_type chunks) a k =
    ((a, tt), omega arith, (λ x h. accept-IsFit u status content_type chunks x h))

when_valid-IsSafe :
    (hosts : List String) (resolve : Resolver) (left : ℕ)
    (continue : Url → Result FetchResult × List Url) (u : Url) (reply : Reply)
    → ((w : Url) → IsSafe hosts resolve left (continue w))
    → (v : Result (Unit {0})) → validate_url_security hosts resolve u ≡ v
    → IsSafe hosts resolve (suc left) (when_valid v (after_reply continue u reply))
when_valid-IsSafe hosts resolve left continue u reply k (err e) p = (tt, omega arith, no_result e)
when_valid-IsSafe hosts resolve left continue u reply k (ok x) p =
    after_reply-IsSafe hosts resolve left continue u reply
      (validate_url_security-IsAllowed hosts resolve u p) k

follow-IsSafe :
    (hosts : List String) (resolve : Resolver) (server : ℕ → Url → Reply) (left : ℕ) (u : Url)
    → IsSafe hosts resolve left (follow hosts resolve server left u)
unfolding follow
follow-IsSafe hosts resolve server zero u = (tt, omega arith, no_result fetch)
follow-IsSafe hosts resolve server (suc left) u =
    when_valid-IsSafe hosts resolve left (follow hosts resolve server left) u (server left u)
      (follow-IsSafe hosts resolve server left) (validate_url_security hosts resolve u) refl

-- Whatever the server answers and wherever it redirects, each URL that is requested is one that the
-- policy allows, at most six are, and a result has a status below 400, a media type of the list or
-- none, and a body within the limit.
pub fetch_url-IsSafe :
    (hosts : List String) (resolve : Resolver) (server : ℕ → Url → Reply) (u : Url)
    → IsSafe hosts resolve 6 (fetch_url hosts resolve server u)
unfolding fetch_url
fetch_url-IsSafe hosts resolve server u = follow-IsSafe hosts resolve server (suc max_redirects) u
