-- ===== src/Render/Tests.antt =====
-- The texts of src/render.rs at a few inputs.
use aardbin.Prelude.{arith, codes, refl, trim}
use aardbin.I18n.{en}
use aardbin.Render.{display_title}
use aardbin.Render.Titles.{IsCut, display_title_lem, followed}

display_title_lem_example :
    IsCut (trim (codes " first ")) 80 (display_title (codes " ") (codes " first \nsecond") en).0
display_title_lem_example =
    (display_title_lem (codes " ") (codes " first ") (codes " first \nsecond") en (ground arith)
        (ground arith) (followed (codes "second"))).3
      refl (λ h. absurd (ground (arith, h)))
