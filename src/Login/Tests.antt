-- ===== src/Login/Tests.antt =====
-- Logins of src/routes.rs at a small server, and the theorems at them.
use mathlib.Core.Option
use aardbin.Prelude.Dict.{find}
use aardbin.Prelude.{List, cut, some, [], arith, as_bytes, codes, refl, utf8_char, ◌∷◌, ◌≡◌}
use aardbin.Prelude.Decimal.{show_from, show_u64}
use aardbin.Cookies.{show_cookies}
use aardbin.Http.{get, visible}
use aardbin.App.{World}
use aardbin.I18n.{as_str, zh}
use aardbin.I18n.Choice.{lang_name}
use aardbin.Session.{expiry_at, issue, mac_for}
use aardbin.Ratelimit.{IpAddr}
use aardbin.Ratelimit.History.{Call, checked, failed, replay}
use aardbin.Guard.{require_auth}
use aardbin.Login.{detect_lang, html, post_lang, post_login}
use aardbin.Login.Lockouts.{post_login-replay}
use aardbin.Login.Sessions.{request_with, require_auth-issue}
use aardbin.Login.Language.{detect_lang-chosen}
use aardbin.Fixtures.{server, store}

abbrev home : IpAddr
home = codes "10.0.0.1"

abbrev five : List Call
five = failed home 5 ∷ failed home 4 ∷ failed home 3 ∷ failed home 2 ∷ failed home 1 ∷ []

abbrev attacked : World
attacked = record store { failures = replay five }

-- The right key, after five failures.
post_login-replay_example :
    ((post_login server home 6 7 100 [] (codes "0123456789abcdef") attacked).0.status ≡ 429)
    × ((post_login server home 6 7 100 [] (codes "0123456789abcdef") attacked).1.failures
        ≡ replay (checked home 6 ∷ five))
post_login-replay_example =
    (post_login-replay server home 6 7 100 [] (codes "0123456789abcdef") five attacked (omega arith)
        refl).0
      (omega arith)

require_auth-issue_example :
    require_auth server 3599
      (request_with server 0 3599 get [] [])
      (λ w. ((html (codes "page")), w))
      store
    ≡ ((html (codes "page")), store)
unfolding issue expiry_at mac_for show_u64 show_from as_bytes utf8_char
require_auth-issue_example =
    (require_auth-issue server 0 3599 get [] [] (λ w. ((html (codes "page")), w)) store
        (omega arith) (ground arith)).0
      (omega arith)

sets_zh :
    Option.map (cut b';') (find (codes "set-cookie") (post_lang [] (codes "zh")).headers)
    ≡ some (codes "aardbin_lang=zh", some (codes " Path=/; SameSite=Lax; Max-Age=31536000"))
unfolding post_lang find show_u64 show_from
sets_zh = refl

detect_lang-chosen_example :
    detect_lang (
      (
        codes "cookie",
        visible (show_cookies ((lang_name, as_str zh) ∷ (codes "x", codes "y") ∷ [])),
      )
      ∷ (codes "accept-language", visible (codes "en"))
      ∷ [])
    ≡ zh
detect_lang-chosen_example =
    detect_lang-chosen (codes "zh") [] (codes "zh")
      (some (codes " Path=/; SameSite=Lax; Max-Age=31536000")) ((codes "x", codes "y") ∷ [])
      ((codes "accept-language", visible (codes "en")) ∷ []) (ground arith) sets_zh
