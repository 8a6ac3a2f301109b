-- ===== src/Guard/Tests.antt =====
-- Requests to the middleware of src/guard.rs, and the theorems at them.
use aardbin.Prelude.{[], arith, codes, refl, some, ◌∷◌, ◌≡◌}
use aardbin.Http.{Request, Response, find_header, header_text, post, redirect, visible}
use aardbin.App.{World}
use aardbin.Guard.{cut_scheme, origin_guard, origin_host}
use aardbin.Guard.Origins.{IsFromHost, IsLocalFetch, origin_guard_lem, site}
use aardbin.Fixtures.{store}

abbrev page : World → Response × World
page w = (redirect (codes "/"), w)

abbrev cross_site : Request
cross_site = record {
  method = post;
  headers =
      (codes "host", visible (codes "bin.example"))
      ∷ (codes "origin", visible (codes "https://evil.example"))
      ∷ [];
}

evil_host : origin_host (codes "https://evil.example") ≡ some (codes "evil.example")
unfolding origin_host cut_scheme
evil_host = refl

not_same : ¬ (
    IsLocalFetch (find_header (codes "sec-fetch-site") cross_site.headers)
    × IsFromHost
        (site (codes "https") (codes "evil.example"))
        (header_text (codes "host") cross_site.headers))
unfolding find_header header_text
not_same (fetch, (h, named, same)) = cc (named, same)

origin_guard_lem_example :
    ((origin_guard cross_site page store).0.status ≡ 403)
    × ((origin_guard cross_site page store).1 ≡ store)
unfolding find_header
origin_guard_lem_example =
    (origin_guard_lem cross_site (site (codes "https") (codes "evil.example")) page store refl
        (ground arith, ground arith)).2
      refl not_same
