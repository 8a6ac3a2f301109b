-- ===== src/Server.antt =====
-- The routes of src/main.rs that change the shared state, as a sequence of requests. A request is
-- served whole, but for an update, which lets others in while its form arrives.
pub mod Statements
pub mod Constraints
use aardbin.Prelude.{Text, ℕ}
use aardbin.Http.{Headers}
use aardbin.App.{Env, World}
use aardbin.Form.{Multipart}
use aardbin.Ratelimit.{IpAddr}
use aardbin.Login.{post_login}
use aardbin.Records.{create_record, update_record}
use aardbin.Records.Removal.{delete_attachment, delete_record}
use aardbin.Api.{api_create_record, api_delete_record, with_auth}

pub data Traffic : Type 0 where
  quiet : Traffic
  login : IpAddr → ℕ → ℕ → ℕ → Headers → Text → Traffic → Traffic
  create : Multipart → Headers → ℕ → Traffic → Traffic
  update : Text → Multipart → Headers → ℕ → Traffic → Traffic → Traffic
  delete : Text → Traffic → Traffic
  detach : Headers → Text → Text → ℕ → Traffic → Traffic
  api_create : IpAddr → ℕ → ℕ → Multipart → Headers → ℕ → Traffic → Traffic
  api_delete : IpAddr → ℕ → ℕ → Headers → Text → Traffic → Traffic

unfoldable pub serve : Env → Traffic → World → World
unfolding post_login create_record update_record delete_record delete_attachment with_auth
    api_create_record api_delete_record
serve e quiet w = w
serve e (login ip checked_at failed_at now hs key rest) w =
    serve e rest (post_login e ip checked_at failed_at now hs key w).1
serve e (create form hs now rest) w = serve e rest (create_record e form hs now w).1
serve e (update id form hs now during rest) w =
    serve e rest (update_record e (serve e during) id form hs now w).1
serve e (delete id rest) w = serve e rest (delete_record id w).1
serve e (detach hs record_id id now rest) w =
    serve e rest (delete_attachment e hs record_id id now w).1
serve e (api_create ip checked_at failed_at form hs now rest) w =
    serve e rest (with_auth e ip checked_at failed_at hs (api_create_record e form hs now) w).1
serve e (api_delete ip checked_at failed_at hs id rest) w =
    serve e rest (with_auth e ip checked_at failed_at hs (api_delete_record e id) w).1
