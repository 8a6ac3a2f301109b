-- ===== src/Cli/Client.antt =====
-- `Client` of src/cli/src/main.rs: the requests of the commands, and the loop that sends one again.
use aardbin.Prelude.{
  Bool, Bytes, Option, Text, [], codes, if◌then◌else◌, leb, min, none, not, some, suc, zero, ℕ, ◌*◌,
  ◌++◌, ◌+◌, ◌==◌, ◌||◌, ◌∷◌,
}
use aardbin.Prelude.Decimal.{parse_u64, show_u64}
use aardbin.Http.{Headers, Method, header_text, visible}
use aardbin.Guard.{trim_slashes}
use aardbin.Cli.Host.{
  Action, Host, HttpRequest, HttpResponse, Payload, bad_body, bad_client, bad_url, empty, eprintln,
  exchange, fail, fuel_spent, message, or_fail, pure, sleep, ◌>>=◌, ◌>>◌,
}

pub record Client : Type 0 where
  pub base_url : Text
  -- the headers that `http` puts on each request
  pub default_headers : Headers

abbrev pub client_of : Text → Text → Client
client_of base_url access_key = record {
  base_url = trim_slashes base_url;
  default_headers = (codes "authorization", visible (codes "Bearer " ++ access_key)) ∷ [];
}

-- `parse::<u64>` of the Retry-After header, or one second
abbrev pub retry_after : HttpResponse → ℕ
retry_after resp = elim (header_text (codes "retry-after") resp.headers) [
  | none ↦ 1
  | some v ↦ elim (parse_u64 v) [ none ↦ 1 | some seconds ↦ seconds ]
]

abbrev pub wait_of : ℕ → HttpResponse → ℕ
wait_of attempts resp = min (retry_after resp) 30 * (attempts + 1)

-- the loop returns a response of any other status, and any response to the fourth request
abbrev pub is_final : ℕ → HttpResponse → Bool
is_final attempts resp = not (resp.status == 429) || leb 3 attempts

module _ {S : Type 0} (h : Host S) where
  unfoldable pub new : Text → Text → Action S Client
  new base_url access_key =
      if h.header_ok (codes "Bearer " ++ access_key)
      then (if h.client_ok then pure (client_of base_url access_key) else fail bad_client)
      else fail (message (codes "invalid access key characters"))

  -- `Client::execute`
  unfoldable pub execute : Client → HttpRequest → Action S HttpResponse
  execute c req = exchange h (record req { headers = req.headers ++ c.default_headers })

  unfoldable pub back_off : ℕ → HttpResponse → Action S (Unit {0})
  back_off attempts resp = do
    eprintln
        (codes "Rate limited. Retrying in " ++ (show_u64 (wait_of attempts resp) ++ codes "s..."))
    sleep (wait_of attempts resp)

  -- The loop of `send_with_retry`; `fuel` bounds its rounds.
  unfoldable pub send_loop : Client → ℕ → ℕ → HttpRequest → Action S HttpResponse
  unfolding execute back_off
  send_loop c zero attempts req = fail fuel_spent
  send_loop c (suc fuel) attempts req =
      let again = send_loop c fuel (attempts + 1) req in
      if h.try_clone req
      then (do
        resp ← execute c req
        if is_final attempts resp then pure resp else (back_off attempts resp >> again))
      else execute c req

  unfoldable pub send_with_retry : Client → HttpRequest → Action S HttpResponse
  unfolding send_loop
  send_with_retry c req = send_loop c 4 0 req

  -- `RequestBuilder::build`
  unfoldable pub build : Method → Text → Payload → Action S HttpRequest
  build method url payload =
      if h.url_ok url
      then pure (record { method = method; url = url; headers = []; payload = payload })
      else fail bad_url

  -- `RequestBuilder::send`
  unfoldable pub send : Client → Method → Text → Action S HttpResponse
  unfolding build execute
  send c method url = do req ← build method url empty; execute c req

  -- `resp.json()`, or `resp.bytes()` with `some`
  unfoldable pub json : {T : Type 0} → (Bytes → Option T) → HttpResponse → Action S T
  json read resp = elim resp.body [
    | none ↦ fail bad_body
    | some bytes ↦ or_fail bad_body (read bytes)
  ]

  -- `bail!` with the error that the API sends, or with `otherwise` where it sends none
  unfoldable pub bail_error : {T : Type 0} → Text → HttpResponse → Action S T
  bail_error otherwise resp = elim resp.body [
    | none ↦ fail (message otherwise)
    | some bytes ↦ elim (h.read_error bytes) [
      | none ↦ fail (message otherwise)
      | some error ↦ fail (message error)
    ]
  ]
