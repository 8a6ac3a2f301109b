-- ===== src/Router.antt =====
-- The routes and layers of `main` in src/main.rs: how a request comes to its handler.
pub mod Table
pub mod Choice
pub mod Sealed
pub mod Readers
pub mod Keeping
pub mod Safe
pub mod Consistent
pub mod Reached
mod Tests
use aardbin.Prelude.{
  Bool, List, Option, Text, [], false, if◌then◌else◌, none, some, text_eq, true, ℕ, ℤ, ◌∷◌,
}
use aardbin.Http.{Headers, Method, Response, delete, get, head, post}
use aardbin.App.{World}
use aardbin.Ratelimit.{IpAddr}
use aardbin.Form.{Multipart}

-- A request as it arrives, with the times at which its handler reads the clocks, and with what the
-- extractors of `axum` make of it: `none` where they reject it, and the answer that they give then.
pub record Arrival : Type 0 where
  pub method : Method
  -- the parts between the slashes
  pub path : List Text
  pub headers : Headers
  pub peer : IpAddr
  pub checked_at : ℕ
  pub failed_at : ℕ
  pub now : ℕ
  pub decode : Text → Option Text
  pub error_query : Option (Option Text)
  pub page_query : Option (Option ℤ)
  pub list_query : Option (Option ℤ × Option ℤ)
  pub inline_query : Option (Option Text)
  pub login_form : Option Text
  pub lang_form : Option Text
  pub multipart : Option Multipart
  pub rejection : Response
  -- the answers of `axum` where no route or no method fits, and of the directory of static files
  pub not_found : Response
  pub not_allowed : Response
  pub static_file : Response
  -- what other requests do while the form of this one arrives
  pub during : World → World

-- A handler gets the parts of the path that the pattern names.
abbrev pub Handler : Type 0
Handler = Arrival → List Text → World → Response × World

pub data Segment : Type 0 where
  lit : Text → Segment
  param : Segment
  rest : Segment

-- `MethodRouter`
pub record Methods : Type 0 where
  pub on_get : Option Handler
  pub on_post : Option Handler
  pub on_delete : Option Handler

pub record Route : Type 0 where
  pub pattern : List Segment
  pub methods : Methods

abbrev captured : Text → Option (List Text) → Option (List Text)
captured part none = none
captured part (some found) = some (part ∷ found)

abbrev pub is_empty : Text → Bool
is_empty [] = true
is_empty (c ∷ s) = false

-- A named part is not empty. `rest` is the wildcard of `nest_service`.
unfoldable pub match : List Segment → List Text → Option (List Text)
match [] [] = some []
match [] (part ∷ parts) = none
match (rest ∷ pattern) parts = some []
match (lit s ∷ pattern) [] = none
match (lit s ∷ pattern) (part ∷ parts) = if text_eq s part then match pattern parts else none
match (param ∷ pattern) [] = none
match (param ∷ pattern) (part ∷ parts) =
    if is_empty part then none else captured part (match pattern parts)

-- `get` serves HEAD as well.
abbrev pub chosen : Method → Methods → Option Handler
chosen Method.get ms = ms.on_get
chosen Method.head ms = ms.on_get
chosen Method.post ms = ms.on_post
chosen Method.delete ms = ms.on_delete
chosen _ ms = none

unfoldable pub run : Arrival → List Text → Option Handler → World → Response × World
run a found none w = (a.not_allowed, w)
run a found (some handler) w = handler a found w

-- The first route whose pattern fits. Of two patterns that fit, `axum` takes the one with a literal
-- part before the one with a named part: the table lists them in this order.
unfoldable pub dispatch : List Route → Arrival → World → Response × World
unfolding match run
dispatch [] a w = (a.not_found, w)
dispatch (r ∷ rs) a w =
    let later = dispatch rs a w in
    elim (match r.pattern a.path) [
      | none ↦ later
      | some found ↦ run a found (chosen a.method r.methods) w
    ]

-- `route_layer`, on each handler that a route has
abbrev pub layered : (Handler → Handler) → Option Handler → Option Handler
layered f none = none
layered f (some handler) = some (f handler)

abbrev pub route_layer : (Handler → Handler) → List Route → List Route
route_layer f [] = []
route_layer f (r ∷ rs) =
    record {
      pattern = r.pattern;
      methods = record {
        on_get = layered f r.methods.on_get;
        on_post = layered f r.methods.on_post;
        on_delete = layered f r.methods.on_delete;
      };
    }
    ∷ route_layer f rs
