-- ===== src/Guard/Origins.antt =====
-- What `origin_guard` of src/guard.rs lets through.
use mathlib.Core.Bool.{false≢true}
use aardbin.Prelude.{
  Avoids, ap, Option, Text, [], arith, codes, none, refl, some, strip_prefix, text_eq_iff,
  to_ascii_lowercase, true, ◌++◌, ◌↔◌, ◌∷◌, ◌≡◌, ◌⊎◌,
}
use aardbin.Http.{
  HeaderValue, Headers, Method, delete, get, head, other, post, put, Request, Response, find_header,
  header_text, opaque, visible,
}
use aardbin.App.{World}
use aardbin.Guard.{
  cut_scheme, is_post, origin_guard, origin_host, origin_ok, same_host, separator, site_ok,
  trim_slashes,
}

cut_scheme-append :
    (scheme rest : Text)
    → Avoids b':' scheme
    → cut_scheme (scheme ++ separator ++ rest) ≡ (scheme, some rest)
unfolding cut_scheme strip_prefix
cut_scheme-append [] rest h = refl
cut_scheme-append (c ∷ s) rest h = ground (arith, cut_scheme-append s rest h.1)

cut_scheme_whole : (s : Text) → Avoids b'/' s → (cut_scheme s).0 ≡ s
unfolding cut_scheme strip_prefix
cut_scheme_whole [] h = refl
cut_scheme_whole (c ∷ s) h = ground (arith, cut_scheme_whole s h.1)

trim_slashes_whole : (s : Text) → Avoids b'/' s → trim_slashes s ≡ s
trim_slashes_whole [] h = refl
trim_slashes_whole (c ∷ []) h = ground (arith, h.0)
trim_slashes_whole (c ∷ d ∷ s) h = rw (trim_slashes_whole (d ∷ s) h.1) refl

-- The host that is read of an origin `scheme://authority`, with no colon in the scheme and no
-- slash in the authority, is the authority, port included, in lower case.
pub origin_host-append :
    (scheme authority : Text)
    → Avoids b':' scheme
    → Avoids b'/' authority
    → origin_host (scheme ++ separator ++ authority) ≡ some (to_ascii_lowercase authority)
unfolding origin_host
origin_host-append scheme authority hs ha =
    rw (cut_scheme-append scheme authority hs, origin_host)
      (rw (cut_scheme_whole authority ha, trim_slashes_whole authority ha) refl)

-- The Origin header that a request may have: none, the address of a site, `null`, or no text.
pub data Sender : Type 0 where
  unnamed : Sender
  site : Text → Text → Sender
  null_origin garbled : Sender

abbrev pub origin_value : Sender → Option HeaderValue
origin_value unnamed = none
origin_value (site scheme authority) = some (visible (scheme ++ codes "://" ++ authority))
origin_value null_origin = some (visible (codes "null"))
origin_value garbled = some opaque

-- A site's address: no colon in the scheme, no slash in the host and port.
abbrev pub IsPlain : Sender → Type 0
IsPlain (site scheme authority) = Avoids b':' scheme × Avoids b'/' authority
IsPlain _ = Unit

-- The site that is named is the host that the request is sent to, whatever the case of its letters.
abbrev pub IsFromHost : Sender → Option Text → Type 0
IsFromHost unnamed host = Unit
IsFromHost (site scheme authority) host =
    (h : Text) × (host ≡ some h) × (to_ascii_lowercase authority ≡ to_ascii_lowercase h)
IsFromHost null_origin host = ⊥
IsFromHost garbled host = ⊥

-- What a browser says of a request of the site itself, or of one from its address bar; other
-- clients say nothing.
abbrev pub IsLocalFetch : Option HeaderValue → Type 0
IsLocalFetch none = Unit
IsLocalFetch (some opaque) = ⊥
IsLocalFetch (some (visible s)) =
    (s ≡ codes "same-origin") ⊎ ((s ≡ codes "same-site") ⊎ (s ≡ codes "none"))

site_ok_iff : (o : Option HeaderValue) → (site_ok o ≡ true) ↔ IsLocalFetch o
unfolding site_ok
site_ok_iff none = (λ h. tt, λ h. refl)
site_ok_iff (some opaque) = (λ h. absurd (false≢true h), λ h. absurd h)
site_ok_iff (some (visible s)) = (
  λ h. ground (
    arith,
    h,
    text_eq_iff s (codes "same-origin"),
    text_eq_iff s (codes "same-site"),
    text_eq_iff s (codes "none"),
  ),
  λ h. ground (
    arith,
    h,
    text_eq_iff s (codes "same-origin"),
    text_eq_iff s (codes "same-site"),
    text_eq_iff s (codes "none"),
  ),
)

same_host_iff :
    (a : Text) (host : Option Text)
    → (same_host (some a) host ≡ true) ↔ ((h : Text) × (host ≡ some h) × (a ≡ to_ascii_lowercase h))
same_host_iff a none = (λ c. absurd (false≢true c), λ c. absurd (ground (arith, c.1)))
same_host_iff a (some b) = (
  λ c. (b, refl, ground (arith, c, text_eq_iff a (to_ascii_lowercase b))),
  λ c. ground (arith, c, text_eq_iff a (to_ascii_lowercase b)),
)

origin_ok_iff :
    (hs : Headers) (sender : Sender)
    → find_header (codes "origin") hs ≡ origin_value sender
    → IsPlain sender
    → (origin_ok hs ≡ true) ↔ IsFromHost sender (header_text (codes "host") hs)
unfolding origin_ok origin_host
origin_ok_iff hs unnamed named plain = (λ c. tt, λ c. rw (named, origin_ok) refl)
origin_ok_iff hs (site scheme authority) named plain =
    let host = header_text (codes "host") hs in
    let read : origin_ok hs ≡ same_host (some (to_ascii_lowercase authority)) host =
      rw (named, origin_ok)
        (ap (λ o. same_host o host) (origin_host-append scheme authority plain.0 plain.1)) in
    rw read (same_host_iff (to_ascii_lowercase authority) host)
origin_ok_iff hs null_origin named plain =
    (λ c. absurd (false≢true (rw (named, origin_ok) at c)), λ c. absurd c)
origin_ok_iff hs garbled named plain =
    (λ c. absurd (false≢true (rw (named, origin_ok) at c)), λ c. absurd c)

is_post_iff : (m : Method) → (is_post m ≡ true) ↔ (m ≡ post)
is_post_iff post = (λ h. refl, λ h. refl)
is_post_iff get = (λ h. absurd (false≢true h), λ h. absurd (cc h))
is_post_iff head = (λ h. absurd (false≢true h), λ h. absurd (cc h))
is_post_iff put = (λ h. absurd (false≢true h), λ h. absurd (cc h))
is_post_iff delete = (λ h. absurd (false≢true h), λ h. absurd (cc h))
is_post_iff other = (λ h. absurd (false≢true h), λ h. absurd (cc h))

-- Take a request with no Origin, or one whose Origin is the address of a site, `null`, or no text.
-- A request that is no POST goes on to its handler. A POST goes on if its Sec-Fetch-Site is
-- `same-origin`, `same-site` or `none`, or is not there, and its Origin names the host of its Host
-- header, letters in either case, or is not there. Any other POST is answered 403, and the shared
-- state stays.
pub origin_guard_lem :
    (req : Request) (sender : Sender) (next : World → Response × World) (w : World)
    → find_header (codes "origin") req.headers ≡ origin_value sender
    → IsPlain sender
    → (¬ (req.method ≡ post) → origin_guard req next w ≡ next w)
      × (IsLocalFetch (find_header (codes "sec-fetch-site") req.headers)
          → IsFromHost sender (header_text (codes "host") req.headers)
          → origin_guard req next w ≡ next w)
      × (req.method ≡ post
          → ¬ (
              IsLocalFetch (find_header (codes "sec-fetch-site") req.headers)
              × IsFromHost sender (header_text (codes "host") req.headers))
          → ((origin_guard req next w).0.status ≡ 403) × ((origin_guard req next w).1 ≡ w))
unfolding origin_guard
origin_guard_lem req sender next w named plain =
    let fetch = site_ok_iff (find_header (codes "sec-fetch-site") req.headers) in
    let from = origin_ok_iff req.headers sender named plain in
    let posted = is_post_iff req.method in
    (
      λ n. ground (arith, posted, n),
      λ f o. ground (arith, fetch.1 f, from.1 o),
      λ p n. ground (arith, posted, p, fetch, from, n),
    )
