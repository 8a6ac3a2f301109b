-- ===== src/Cli/Wire.antt =====
-- The client of src/cli/src/main.rs on the server of src/main.rs: what carries a request and its
-- answer between them, `reqwest`, HTTP and `axum`.
use aardbin.Prelude.{
  All, List, Text, [], as_bytes, codes, map, none, pos, some, true, ℕ, ◌++◌, ◌∷◌, ◌≡◌, ◌≤◌, ◌⊎◌,
}
use aardbin.Http.{Method, Response, find_header, header_text}
use aardbin.Ratelimit.{allowed, check}
use aardbin.App.{Env, World}
use aardbin.Router.{Arrival}
use aardbin.Router.Table.{app}
use aardbin.Views
use aardbin.Views.{created_json, record_json}
use aardbin.Form.Texts.{text_form}
use aardbin.Cli.Host.{
  ApiAttachmentMeta, ApiRecord, Host, HttpRequest, HttpResponse, Part, Payload, text,
}
use aardbin.Cli.Client.{Client}
use aardbin.Cli.Commands.{record_url}
use aardbin.Cli.Makes.{IsStreamed, asked}

pub record Wire : Type 0 where
  pub arrive : HttpRequest → Arrival
  pub reply : Response → HttpResponse

-- A name that stands in an address as it is, as the text of a UUID does.
abbrev pub IsNameChar : ℕ → Type 0
IsNameChar c = ((b'0' ≤ c) × (c ≤ b'9')) ⊎ ((b'a' ≤ c) × (c ≤ b'z')) ⊎ (c ≡ b'-')

abbrev pub IsName : Text → Type 0
IsName [] = ⊥
IsName (c ∷ s) = All IsNameChar (c ∷ s)

-- a form with a title and a content, as it is sent
abbrev pub text_parts : Text → Text → List Part
text_parts title content = text (codes "title") title ∷ text (codes "content") content ∷ []

abbrev pub attachment_seen : Views.ApiAttachmentMeta → ApiAttachmentMeta
attachment_seen a = record {
  id = a.id;
  original_filename = a.original_filename;
  size_bytes = pos a.size_bytes;
}

-- a record of the API as the client declares it
abbrev pub seen : Views.ApiRecord → ApiRecord
seen r = record {
  id = r.id;
  title = r.title;
  content = r.content;
  untitled = r.untitled;
  updated_at = pos r.updated_at;
  attachments = map attachment_seen r.attachments;
}

-- what the server makes of a request of the client
abbrev pub arrived : Wire → Client → Method → Text → Payload → Arrival
arrived wire c method url payload = wire.arrive (asked c method url payload)

abbrev pub create_arrival : Wire → Client → Text → Text → Arrival
create_arrival wire c title content =
    arrived wire c Method.post (c.base_url ++ codes "/api/records")
      (Payload.multipart (text_parts title content))

abbrev pub get_arrival : Wire → Client → Text → Arrival
get_arrival wire c id = arrived wire c Method.get (record_url c id) Payload.empty

-- The limiter of the server lets the request through.
abbrev pub IsUnlocked : Arrival → World → Type 0
IsUnlocked a w = (check a.peer a.checked_at w.failures).0 ≡ allowed

-- Requests and answers arrive as they are sent, with none of the headers that a browser adds; the
-- deserializer reads what the serializer writes.
pub record Link (e : Env) (h : Host World) (wire : Wire) (c : Client) : Type 0 where
  pub served :
      (req : HttpRequest) (w : World)
      → h.execute req w
        ≡ (some (wire.reply (app e (wire.arrive req) w).0), (app e (wire.arrive req) w).1)
  pub status : (resp : Response) → (wire.reply resp).status ≡ resp.status
  pub body : (resp : Response) → (wire.reply resp).body ≡ some (as_bytes resp.body)
  pub method : (req : HttpRequest) → (wire.arrive req).method ≡ req.method
  pub authorization :
      (req : HttpRequest)
      → header_text (codes "authorization") (wire.arrive req).headers
        ≡ header_text (codes "authorization") req.headers
  pub no_site :
      (req : HttpRequest) → find_header (codes "sec-fetch-site") (wire.arrive req).headers ≡ none
  pub no_origin :
      (req : HttpRequest) → find_header (codes "origin") (wire.arrive req).headers ≡ none
  pub create_path :
      (parts : List Part)
      → (wire.arrive
          (asked c Method.post (c.base_url ++ codes "/api/records") (Payload.multipart parts))).path
        ≡ codes "api" ∷ codes "records" ∷ []
  pub create_form :
      (title content : Text)
      → (wire.arrive (
          asked c Method.post
            (c.base_url ++ codes "/api/records")
            (Payload.multipart (text_parts title content)))).multipart
        ≡ some (text_form title content)
  pub record_path :
      (id : Text)
      → IsName id
      → ((wire.arrive (asked c Method.get (record_url c id) Payload.empty)).path
          ≡ codes "api" ∷ codes "records" ∷ id ∷ [])
        × ((wire.arrive (asked c Method.get (record_url c id) Payload.empty)).decode id ≡ some id)
  pub urls : (url : Text) → h.url_ok url ≡ true
  pub streamed : IsStreamed h
  pub created : (id : Text) → h.read_created (as_bytes (e.to_json (created_json id))) ≡ some id
  pub read :
      (r : Views.ApiRecord) → h.read_record (as_bytes (e.to_json (record_json r))) ≡ some (seen r)
