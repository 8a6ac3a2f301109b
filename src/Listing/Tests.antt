-- ===== src/Listing/Tests.antt =====
-- Pages of the lists of src/routes.rs on a small store, and the theorems at it.
use aardbin.Prelude.{[], arith, inr, pos, refl, some, ◌+◌, ◌^◌, ◌≡◌}
use aardbin.App.{Env, db_call}
use aardbin.I18n.{en}
use aardbin.Db.{list_records, newer, order_by, offset_of}
use aardbin.Listing.{build_list_view, clamped, first_query, ids_of, panicked, shown, total_pages}
use aardbin.Views.{ListView}
use aardbin.Listing.Pages.{pages_cover, pages_up_to}
use aardbin.Listing.Shown.{ids_shown}
use aardbin.Listing.Past.{build_list_view-rows, build_list_view-single}
use aardbin.Fixtures.{server, settings, store}

two_pages : total_pages 2 (pos 1) ≡ some 2
unfolding total_pages
two_pages = refl

pages_cover_example : pages_up_to 0 store.tables 2 ≡ order_by newer store.tables.records
pages_cover_example = pages_cover 0 store.tables 2 (omega arith) two_pages

build_list_view-rows_example :
    (v : ListView) × ((build_list_view server (pos 7) en store).0 ≡ shown v)
    × (v.page ≡ 2)
    × (v.total_pages ≡ 2)
    × (v.total ≡ 2)
    × (ids_shown v.records ≡ ids_of (list_records v.page (pos 1) store.tables).0)
build_list_view-rows_example =
    build_list_view-rows server en (pos 7) store 0 2 refl refl (omega arith) two_pages (omega arith)
      (inr (omega arith))

-- One page of two records.
abbrev wide : Env
wide = record server { cfg = record settings { page_size = pos 2 } }

one_page : total_pages 2 (pos 2) ≡ some 1
unfolding total_pages
one_page = refl

build_list_view-single_example :
    (v : ListView) × ((build_list_view wide (pos 2) en store).0 ≡ shown v)
    × (v.page ≡ 1)
    × (v.total ≡ 2)
    × (ids_shown v.records ≡ [])
build_list_view-single_example =
    build_list_view-single wide en (pos 2) store 1 1 refl refl (omega arith) one_page (omega arith)
      refl (omega arith)

-- A page size of zero, which the configuration accepts, ends in a division by zero.
zero_panics :
    (build_list_view
      (record server { cfg = record settings { page_size = pos 0 } })
      (pos 1)
      en
      store).0
    ≡ panicked
unfolding build_list_view first_query clamped total_pages db_call
zero_panics = refl

-- The product of a page and a page size wraps: this page shows the rows of the first one.
wraps : offset_of (2 ^ 62 + 1) (pos 20) ≡ 0
unfolding offset_of
wraps = refl
