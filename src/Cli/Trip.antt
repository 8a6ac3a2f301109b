-- ===== src/Cli/Trip.antt =====
-- `paste` and `get` of src/cli/src/main.rs on the server of src/main.rs, from one end to the other.
use mathlib.Core.Path.{subst}
use aardbin.Prelude.{Bytes, Text, [], ap, codes, length, refl, some, sym, ℕ, ◌++◌, ◌∙◌, ◌∷◌, ◌≡◌}
use aardbin.Http.{Method, header_text}
use aardbin.App.{Env, World}
use aardbin.Api.{api_create_record, api_get_record}
use aardbin.Router.Table.{app}
use aardbin.Db
use aardbin.Router.Reached.{IsWelcome, app-get, app-post, let_in}
use aardbin.Api.Trip.{api_get_record-create, record_of}
use aardbin.Crypto.Laws.{CipherLaws}
use aardbin.Records.{content_length}
use aardbin.Form.Texts.{Fits, parse_record_form_texts, parsed, text_form}
use aardbin.Cli.Host.{Host, Payload, Process, done, write_stdout}
use aardbin.Cli.Client.{Client}
use aardbin.Cli.Commands.{cmd_get, cmd_paste, record_url}
use aardbin.Cli.Makes.{asked}
use aardbin.Cli.Wire.{
  IsName, IsUnlocked, Link, Wire, arrived, create_arrival, get_arrival, seen, text_parts,
}
use aardbin.Cli.Printed.{Prints-record, line, record_text}
use aardbin.Cli.Exchanged.{after_exchange, answer_of, created_lem, done_lem, get_lem, paste_lem}

module _ (e : Env) (h : Host World) (wire : Wire) (c : Client) (link : Link e h wire c)
    (key : header_text (codes "authorization") c.default_headers
      ≡ some (codes "Bearer " ++ e.cfg.access_key)) where
  welcome_lem :
      (method : Method) (url : Text) (payload : Payload) (w : World)
      → IsUnlocked (arrived wire c method url payload) w
      → IsWelcome e (arrived wire c method url payload) w
  welcome_lem method url payload w open_to = record {
    header = link.authorization (asked c method url payload) ∙ key;
    unlocked = open_to;
  }

  create_reached :
      (title content : Text) (w : World)
      → IsUnlocked (create_arrival wire c title content) w
      → app e (create_arrival wire c title content) w
        ≡ api_create_record e
            (text_form title content)
            (create_arrival wire c title content).headers
            (create_arrival wire c title content).now
            (let_in (create_arrival wire c title content) w)
  create_reached title content w open_to =
      let req =
        asked c Method.post (c.base_url ++ codes "/api/records")
          (Payload.multipart (text_parts title content)) in
      app-post e (wire.arrive req) w (text_form title content) (link.no_site req)
        (link.no_origin req) (link.method req) (link.create_path (text_parts title content))
        (link.create_form title content) (welcome_lem Method.post _ _ w open_to)

  get_reached :
      (id : Text) (w : World)
      → IsName id
      → IsUnlocked (get_arrival wire c id) w
      → app e (get_arrival wire c id) w ≡ api_get_record e id (let_in (get_arrival wire c id) w)
  get_reached [] w name open_to = absurd name
  get_reached (x ∷ s) w name open_to =
      let req = asked c Method.get (record_url c (x ∷ s)) Payload.empty in
      let (path, plain) = link.record_path (x ∷ s) name in
      app-get e (wire.arrive req) w x s (link.no_site req) (link.no_origin req) (link.method req)
        path plain (welcome_lem Method.get _ _ w open_to)

-- what `get` prints of a record made of a title and a content
abbrev pub shown : Env → Wire → Client → Text → Text → Text → World → Bytes
shown e wire c title content id w = record_text (
    seen (
      record_of e (create_arrival wire c title content).now id (parsed e title content)
        (Db.list_attachments id w.tables)))

-- Let the client hold the server's key, let requests and answers arrive as they are sent, let the
-- cipher open what it seals, with nonces of twelve bytes, and let identifiers be names that stand
-- in an address as they are. If `paste` with a title and a content within the server's limits,
-- from an address that is not locked out, succeeds, it prints the identifier of a record, and `get`
-- with that identifier succeeds, as long as the tables stay as they are, reads do not fail and the
-- address is not locked out: it prints the title as the server displays it, and the content exactly
-- as it was given.
pub paste-get :
    (e : Env) (h : Host World) (wire : Wire) (c : Client) (title content : Text) (p : Process World)
    → Link e h wire c
    → header_text (codes "authorization") c.default_headers
      ≡ some (codes "Bearer " ++ e.cfg.access_key)
    → CipherLaws e.cipher
    → ((i : ℕ) → length (e.nonce i) ≡ 12)
    → ((i : ℕ) → IsName (e.uuid i))
    → Fits e title content (content_length (create_arrival wire c title content).headers)
    → IsUnlocked (create_arrival wire c title content) p.server
    → (cmd_paste h c (some title) (some content) [] p).0 ≡ done tt
    → (id : Text) × ((cmd_paste h c (some title) (some content) [] p).1.stdout
        ≡ p.stdout ++ line id)
      × ((q : Process World)
          → q.server.tables ≡ (cmd_paste h c (some title) (some content) [] p).1.server.tables
          → q.server.faults.db ≡ []
          → IsUnlocked (get_arrival wire c id) q.server
          → ((cmd_get h c id q).0 ≡ done tt)
            × ((cmd_get h c id q).1.stdout ≡ q.stdout ++ shown e wire c title content id q.server))
paste-get e h wire c title content p link key laws twelve names fits may ended =
    let a = create_arrival wire c title content in
    let url = c.base_url ++ codes "/api/records" in
    let payload = Payload.multipart (text_parts title content) in
    let w = let_in a p.server in
    let p1 = after_exchange e wire c Method.post url payload p in
    let pasted = paste_lem e h wire c link title content p in
    let reached = create_reached e h wire c link key title content p.server may in
    let answered : answer_of e wire c Method.post url payload p
        ≡ wire.reply (api_create_record e (text_form title content) a.headers a.now w).0 =
      ap (λ x. wire.reply x.0) reached in
    let status : (api_create_record e (text_form title content) a.headers a.now w).0.status ≡ 201 =
      sym (link.status _)
      ∙ ap (λ x. x.status) (sym answered)
      ∙ done_lem e h wire c link (answer_of e wire c Method.post url payload p) p1
          (ap (λ x. x.0) (sym pasted) ∙ ended) in
    let read =
      ap (λ x. x.0) (parse_record_form_texts e title content (content_length a.headers) w fits) in
    let (id, (n, drawn), _, _, made, later) =
      api_get_record-create e a.now (text_form title content) a.headers w (parsed e title content)
        laws twelve read status in
    let printed =
      pasted
      ∙ created_lem e h wire c link (answer_of e wire c Method.post url payload p) id p1
          (answered ∙ ap wire.reply made) in
    (
      id,
      ap (λ x. x.1.stdout) printed ∙ unfold write_stdout in refl,
      λ q tables calm may_get.
          let r =
            record_of e a.now id (parsed e title content)
              (Db.list_attachments id q.server.tables) in
          let kept : (let_in (get_arrival wire c id) q.server).tables
              ≡ (api_create_record e (text_form title content) a.headers a.now w).1.tables =
            tables
            ∙ ap (λ x. x.1.server.tables) printed
            ∙ (unfold write_stdout in ap (λ x. x.1.tables) reached) in
          let got = get_lem e h wire c link id r q (
            ap (λ x. x.0)
              (get_reached e h wire c link key id q.server (subst IsName (sym drawn) (names n))
                may_get)
            ∙ later (let_in (get_arrival wire c id) q.server) kept calm) in
          let out = Prints-record (seen r) in
          (ap (λ x. x.0) got ∙ out.ends _, ap (λ x. x.1.stdout) got ∙ out.prints _),
    )
