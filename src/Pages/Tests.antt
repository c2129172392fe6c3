-- ===== src/Pages/Tests.antt =====
-- The page of a store with one value.
use rigcontrol.Common.{
  ◌≡◌, refl, arith, false, none, some, [], ◌++◌, All, codes, str_eq, if◌then◌else◌,
}
use rigcontrol.WebTemplate.Output.{delivered}
use rigcontrol.WebTemplate.Document.{render}
use rigcontrol.WebTemplate.Document.Written.{fresh}
use rigcontrol.Settings.{failed, Nvs, Device, list_table, gm_nonvolatile_list}
use rigcontrol.Pages.{settings}
use rigcontrol.Pages.Listed.{IsPlainRow, same, settings_document, settings-page}

abbrev secrets : Nvs Unit
secrets = record {
  nvs_get_str =
      λ s key size. if str_eq key (codes "wifi_password") then some (codes "pw") else none;
  nvs_set_str = λ s key value. some s;
  nvs_erase_key = λ s key. failed;
}

rows-IsPlainRow : All IsPlainRow (gm_nonvolatile_list secrets tt)
unfolding gm_nonvolatile_list list_table str_eq
rows-IsPlainRow = omega arith

settings-page_example :
    let w = settings same secrets tt fresh in
    (delivered w.sent ≡ codes "<!DOCTYPE HTML>\n" ++ render (settings_document secrets tt))
    × (w.buffer ≡ [])
    × (w.tags ≡ [])
    × (w.finished ≡ 1)
    × (w.failures ≡ 0)
settings-page_example = settings-page same secrets tt (λ s h. refl) rows-IsPlainRow

abbrev device : Device Unit
device = record { store = tt; restarts = 0; aborted = false }
