-- ===== src/I18n/Tests.antt =====
-- The tables and the choice of src/i18n.rs at a few inputs.
use aardbin.Prelude.{codes, false, none, refl, some, starts_with, strip_prefix, true, ◌≡◌}
use aardbin.Prelude.Dict.{find}
use aardbin.I18n.Tables.{en_table, zh_table}
use aardbin.I18n.{accept_lang, en, language_tag, resolve, t, table, zh}
use aardbin.I18n.Choice.{is_there, t_own}

t_own_example :
    (is_there (find (codes "nav.new") en_table) ≡ is_there (find (codes "nav.new") zh_table))
    × (is_there (find (codes "nav.new") (table zh)) ≡ true
        → find (codes "nav.new") (table zh) ≡ some (t zh (codes "nav.new")))
    × (is_there (find (codes "nav.new") (table zh)) ≡ false
        → t zh (codes "nav.new") ≡ codes "nav.new")
t_own_example = t_own zh (codes "nav.new")

quality_is_ignored : resolve none (some (codes "en;q=0.1, zh;q=0.9")) ≡ en
unfolding resolve accept_lang language_tag starts_with strip_prefix
quality_is_ignored = refl
