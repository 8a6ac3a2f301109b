-- ===== src/Session/Header.antt =====
-- The session cookie of src/session.rs in a Cookie header.
use aardbin.Prelude.{
  All, Bool, Bool-cases, List, Text, [], ap, arith, false, if◌then◌else◌, inl, inr, none, refl,
  some, strip_prefix, text_eq, ℕ, ◌∙◌, ◌∷◌, ◌≡◌,
}
use aardbin.Cookies.{
  Cookie, IsCookie, cookie_pairs-show_cookies, show_all, show_cookie, show_cookies,
  strip_prefix-show_cookie,
}
use aardbin.Session.{
  Digest, SessionManager, cookie_name, cookie_prefix, extract_valid_session, session_in, validate,
}

module _ (d : Digest) (m : SessionManager) where
  -- The first cookie of the session's name decides.
  abbrev pub first_session : ℕ → List Cookie → Bool
  first_session now [] = false
  first_session now ((name, value) ∷ cs) =
      if text_eq cookie_name name then validate d m now value else first_session now cs

  session_in_skip :
      (now : ℕ) (pair : Text) (pairs : List Text)
      → strip_prefix cookie_prefix pair ≡ none
      → session_in d m now (pair ∷ pairs) ≡ session_in d m now pairs
  unfolding session_in
  session_in_skip now pair pairs h = rw (h, session_in)

  session_in_take :
      (now : ℕ) (pair value : Text) (pairs : List Text)
      → strip_prefix cookie_prefix pair ≡ some value
      → session_in d m now (pair ∷ pairs) ≡ validate d m now value
  unfolding session_in
  session_in_take now pair value pairs h = rw (h, session_in)

  named :
      (c : Cookie)
      → IsCookie c
      → strip_prefix cookie_prefix (show_cookie c)
        ≡ (if text_eq cookie_name c.0 then some c.1 else none)
  named c h = strip_prefix-show_cookie cookie_name c (omega arith) h.1

  session_in-show_all :
      (now : ℕ) (cs : List Cookie)
      → All IsCookie cs
      → session_in d m now (show_all cs) ≡ first_session now cs
  session_in-show_all now [] h = unfold session_in in refl
  session_in-show_all now (c ∷ cs) (h, hs) = elim (Bool-cases (text_eq cookie_name c.0)) [
    | inl e ↦ rw e (
        session_in_take now (show_cookie c) c.1 (show_all cs)
          (named c h ∙ ap (λ (b : Bool). if b then some c.1 else none) e))
    | inr e ↦ rw e (
        session_in_skip now (show_cookie c) (show_all cs)
          (named c h ∙ ap (λ (b : Bool). if b then some c.1 else none) e)
        ∙ session_in-show_all now cs hs)
  ]

  -- A request whose cookies are well formed is authenticated exactly if the first of them that is
  -- named `aardbin_session` holds a value that `validate` accepts.
  pub extract_valid_session-show_cookies :
      (now : ℕ) (c : Cookie) (cs : List Cookie)
      → All IsCookie (c ∷ cs)
      → extract_valid_session d (some (show_cookies (c ∷ cs))) m now ≡ first_session now (c ∷ cs)
  unfolding extract_valid_session
  extract_valid_session-show_cookies now c cs h =
      rw cookie_pairs-show_cookies (session_in-show_all now (c ∷ cs) h)
