-- ===== src/Pages.antt =====
-- components/web_handlers: boilerplate.c, buttons.c and settings.c, the page that lists the settings.
pub mod Listed
pub mod Setting
mod Tests
use rigcontrol.Common.{ℕ, Bool, true, false, Option, List, [], ◌∷◌, ◌++◌, Bytes, codes, take}
use rigcontrol.WebTemplate.{Writer, html_tag, html_attr, html_text, html_doctype, html_end}
use rigcontrol.Settings.{Result, Nvs, Row, gm_nonvolatile_list}

-- Calls in order.
abbrev pub in_order : List (Writer → Writer) → Writer → Writer
in_order [] w = w
in_order (call ∷ calls) w = in_order calls (call w)

-- A tag with an end.
abbrev pub tag : Bytes → Writer → Writer
tag name w = html_tag name true w

-- What `setting_row` shows, and what the button sends, for a value of a type.
abbrev pub shown_value : Result → Bytes → Bytes
shown_value Result.gm_normal value = value
shown_value Result.gm_secret value = codes "(secret)"
shown_value Result.gm_not_set value = codes "(not set)"
shown_value _ value = codes "(error)"

abbrev pub sent_value : Result → Bytes → Bytes
sent_value Result.gm_normal value = value
sent_value _ value = []

-- `vsnprintf` with a buffer of 128 bytes, where the pattern is known.
abbrev pub set_url : Bytes → Bytes → Bytes
set_url name value = take 127 (codes "/setting?name=" ++ (name ++ (codes "&value=" ++ value)))

abbrev pub html_end_boilerplate : Writer → Writer
html_end_boilerplate w = html_end (html_end w)

-- `format` is what `vsnprintf` makes of a string that is given as the pattern, without arguments.
module _ (format : Bytes → Bytes) where
  -- `titl` is already formatted.
  abbrev pub html_boilerplate : Bytes → Writer → Writer
  html_boilerplate title w =
      let titl = take 127 title in
      in_order
        (html_doctype
          ∷ tag (codes "html")
          ∷ tag (codes "head")
          ∷ tag (codes "title")
          ∷ html_text (format titl)
          ∷ html_end
          ∷ html_end
          ∷ tag (codes "body")
          ∷ tag (codes "h1")
          ∷ html_text (format titl)
          ∷ html_end
          ∷ [])
        w

  -- `post_button`, with its link already formatted: `button_internal` with the method POST.
  abbrev pub post_button : Bytes → Bytes → Writer → Writer
  post_button t link w =
      in_order
        (tag (codes "form")
          ∷ html_attr (codes "action") (format (take 127 link))
          ∷ html_attr (codes "method") (format (codes "POST"))
          ∷ html_tag (codes "input") false
          ∷ html_attr (codes "type") (format (codes "submit"))
          ∷ html_attr (codes "value") (format t)
          ∷ html_end
          ∷ [])
        w

  -- `get_button`, with its link already formatted.
  abbrev pub get_button : Bytes → Bytes → Writer → Writer
  get_button t link w =
      in_order
        (tag (codes "button")
          ∷ html_attr (codes "onclick") (codes "window.location.href='" ++ (link ++ codes "';"))
          ∷ html_text (format t)
          ∷ html_end
          ∷ [])
        w

  abbrev pub setting_row : Row → Writer → Writer
  setting_row r w =
      in_order
        (tag (codes "tr")
          ∷ tag (codes "td")
          ∷ get_button (codes "Set") (set_url r.name (sent_value r.type r.value))
          ∷ html_end
          ∷ tag (codes "th")
          ∷ html_text (format r.name)
          ∷ html_end
          ∷ tag (codes "td")
          ∷ html_text (format (shown_value r.type r.value))
          ∷ html_end
          ∷ tag (codes "td")
          ∷ html_text (format r.explanation)
          ∷ html_end
          ∷ html_end
          ∷ [])
        w

  -- The list calls its coroutine for each row.
  unfoldable pub setting_rows : List Row → Writer → Writer
  setting_rows [] w = w
  setting_rows (r ∷ rs) w = setting_rows rs (setting_row r w)

  unfoldable pub settings : {S : Type 0} → Nvs S → S → Writer → Writer
  unfolding setting_rows
  settings nvs s w =
      in_order
        (html_boilerplate (codes "Settings")
          ∷ tag (codes "table")
          ∷ setting_rows (gm_nonvolatile_list nvs s)
          ∷ html_end
          ∷ html_end_boilerplate
          ∷ [])
        w
