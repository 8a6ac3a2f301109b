-- ===== src/Start/Renderer.antt =====
-- `Renderer` of src/render.rs: an environment of templates for each language. The engine, with its
-- loader and the escaping of the names that end in `.html`, is `minijinja`'s: it renders a view by a
-- directory and the language of `t`.
use aardbin.Prelude.{Bool, List, Option, Text, [], if◌then◌else◌, none, refl, text_eq, ◌∷◌, ◌≡◌}
use aardbin.I18n.{Lang, as_str, en, zh}
use aardbin.Views.{View}

-- A directory and the language that `t` is bound to.
pub record Environment : Type 0 where
  pub path : Text
  pub lang : Lang

-- `Path::join`, `is_dir`, and the loading and rendering of a template
pub record Engine : Type 0 where
  pub join : Text → Text → Text
  pub is_dir : Text → Bool
  pub render : Environment → View → Option Text

module _ (m : Engine) where
  unfoldable pub environment : Text → Lang → Environment
  environment templates_dir lang =
      let lang_dir = m.join templates_dir (as_str lang) in
      record { path = if m.is_dir lang_dir then lang_dir else templates_dir; lang = lang }

  environments : Text → List Lang → List (Lang × Environment)
  unfolding environment
  environments templates_dir [] = []
  environments templates_dir (lang ∷ langs) =
      (lang, environment templates_dir lang) ∷ environments templates_dir langs

  -- `Renderer::new`
  unfoldable pub new_renderer : Text → List (Lang × Environment)
  unfolding environments
  new_renderer templates_dir = environments templates_dir (en ∷ zh ∷ [])

  abbrev same_lang : Lang → Lang → Bool
  same_lang a b = text_eq (as_str a) (as_str b)

  rendered : List (Lang × Environment) → Option Text → Lang → View → Option Text
  rendered [] fallback lang view = fallback
  rendered ((l, env) ∷ envs) fallback lang view =
      let later = rendered envs fallback lang view in
      if same_lang l lang then m.render env view else later

  -- `render_lang`: behind the loop, the first environment
  unfoldable pub render_lang : List (Lang × Environment) → Lang → View → Option Text
  unfolding rendered
  render_lang [] lang view = none
  render_lang ((l, env) ∷ envs) lang view = rendered ((l, env) ∷ envs) (m.render env view) lang view

  -- The environment of the language renders, so the fallback is never taken.
  pub render_lang_lem :
      (templates_dir : Text) (lang : Lang) (view : View)
      → render_lang (new_renderer templates_dir) lang view
        ≡ m.render (environment templates_dir lang) view
  unfolding render_lang new_renderer environments rendered
  render_lang_lem templates_dir en view = refl
  render_lang_lem templates_dir zh view = refl
