-- ===== src/Http.antt =====
-- Requests and responses as src/guard.rs, src/routes.rs and src/api.rs read and build them. The
-- types are `axum`'s and `http`'s: a header value is a text, or one on which `to_str` fails.
use aardbin.Prelude.{List, Option, Text, [], codes, if◌then◌else◌, none, some, text_eq, ℕ, ◌∷◌}

pub data Method : Type 0 where
  get head post put delete other : Method

pub data HeaderValue : Type 0 where
  visible : Text → HeaderValue
  opaque : HeaderValue

-- Names in lower case; the first value of a name is the one that `get` returns.
abbrev pub Headers : Type 0
Headers = List (Text × HeaderValue)

unfoldable pub find_header : Text → Headers → Option HeaderValue
find_header name [] = none
find_header name ((k, v) ∷ hs) = if text_eq k name then some v else find_header name hs

-- `.and_then(|v| v.to_str().ok())`
abbrev pub to_str : Option HeaderValue → Option Text
to_str (some (visible s)) = some s
to_str _ = none

unfoldable pub header_text : Text → Headers → Option Text
unfolding find_header
header_text name hs = to_str (find_header name hs)

pub record Request : Type 0 where
  pub method : Method
  pub headers : Headers

pub record Response : Type 0 where
  pub status : ℕ
  pub headers : List (Text × Text)
  pub body : Text

unfoldable pub err_response : ℕ → Text → Response
err_response status msg = record { status = status; headers = []; body = msg }

-- `tracing::error!` is left out.
unfoldable pub internal : Response
unfolding err_response
internal = err_response 500 (codes "internal error")

abbrev pub redirect : Text → Response
redirect to = record { status = 303; headers = (codes "location", to) ∷ []; body = [] }
