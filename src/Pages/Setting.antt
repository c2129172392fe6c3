-- ===== src/Pages/Setting.antt =====
-- components/web_handlers: setting_get.c, the form for a setting, and setting_post.c, which sets it.
pub mod Posted
use rigcontrol.Common.{
  if◌then◌else◌, ℕ, Bool, true, false, Option, none, some, List, [], ◌∷◌, ◌++◌, Bytes, codes, take,
  c_string,
}
use rigcontrol.WebTemplate.{Writer, html_tag, html_attr, html_text, html_end}
use rigcontrol.Settings.{Result, Nvs, Device, gm_nonvolatile_set}
use rigcontrol.Uri.{Param, gm_param_parse, gm_param}
use rigcontrol.Pages.{in_order, tag, html_boilerplate, html_end_boilerplate}

-- The string that the buffer of 1024 bytes holds behind the receive; after an error it is what was
-- there before.
abbrev pub received_string : Option Bytes → Bytes → Bytes
received_string (some body) before = c_string (take 1023 body)
received_string none before = c_string before

abbrev pub title_of : Bytes → Bytes
title_of name = codes "Setting " ++ name

-- The switch on the result of gm_nonvolatile_set.
abbrev pub answer_text : Result → Bytes → Bytes → Bytes
answer_text Result.gm_not_set name value = codes "Non-volatile memory error, not set."
answer_text Result.gm_error name value = codes "Non-volatile memory error, not set."
answer_text Result.gm_not_in_parameter_table name value =
    name ++ codes " is not in the non-volatile parameter table."
answer_text Result.gm_normal name value =
    codes "The value was set: " ++ (name ++ (codes "=" ++ (value ++ codes "\n")))
answer_text Result.gm_secret name value = codes "The value was set."

abbrev pub link : Bytes → Bytes → Writer → Writer
link href t w =
    in_order
      (tag (codes "li")
        ∷ tag (codes "a")
        ∷ html_attr (codes "href") href
        ∷ html_text t
        ∷ html_end
        ∷ html_end
        ∷ [])
      w

module _ (format : Bytes → Bytes) where
  unfoldable pub setting_form : Bytes → Bytes → Writer → Writer
  setting_form name value w =
      in_order
        (html_boilerplate format (title_of name)
          ∷ tag (codes "form")
          ∷ html_attr (codes "method") (codes "post")
          ∷ html_attr (codes "action") (codes "/setting")
          ∷ html_tag (codes "input") false
          ∷ html_attr (codes "type") (codes "hidden")
          ∷ html_attr (codes "name") (codes "name")
          ∷ html_attr (codes "value") (format name)
          ∷ tag (codes "label")
          ∷ html_attr (codes "for") (format name)
          ∷ html_text (format name)
          ∷ html_end
          ∷ html_tag (codes "input") false
          ∷ html_attr (codes "type") (codes "text")
          ∷ html_attr (codes "name") (codes "value")
          ∷ html_attr (codes "value") (format value)
          ∷ html_tag (codes "input") false
          ∷ html_attr (codes "type") (codes "submit")
          ∷ html_end
          ∷ html_end_boilerplate
          ∷ [])
        w

  abbrev pub form_for : Option Bytes → Option Bytes → Writer → Writer × Bool
  form_for (some name) (some value) w = (setting_form name value w, true)
  form_for _ _ w = (w, false)

  -- Whether it returns 0; the table of the URI has ten places.
  unfoldable pub setting_get : List Param → Writer → Writer × Bool
  unfolding gm_param setting_form
  setting_get params w =
      form_for (gm_param (take 10 params) (codes "name"))
        (gm_param (take 10 params) (codes "value")) w

  unfoldable pub posted_page : Bytes → Bytes → Writer → Writer
  posted_page name answer w =
      in_order
        (html_boilerplate format (title_of name)
          ∷ html_text answer
          ∷ tag (codes "ul")
          ∷ link (codes "/") (codes "Front page.")
          ∷ link (codes "/settings") (codes "Settings.")
          ∷ html_end
          ∷ html_end_boilerplate
          ∷ [])
        w

  module _ {S : Type 0} (nvs : Nvs S) where
    abbrev pub set_and_answer :
        Option Bytes → Option Bytes → Device S → Writer → Option (Device S × Writer × Bool)
    set_and_answer (some name) (some value) d w =
        let set = gm_nonvolatile_set nvs name value d in
        if set.0.aborted
        then none
        else some (set.0, posted_page name (answer_text set.1 name value) w, true)
    set_and_answer _ _ d w = some (d, w, false)

    -- The parameters are looked up in a table of two. `none` is a parse that runs out of fuel, or
    -- an abort; the status of the parse is not looked at.
    unfoldable pub setting_post :
        Option Bytes → Bytes → Device S → Writer → Option (Device S × Writer × Bool)
    unfolding gm_param_parse gm_param posted_page gm_nonvolatile_set
    setting_post received before d w = elim (gm_param_parse (received_string received before)) [
      | none ↦ none
      | some parsed ↦
          let table = take 2 parsed.entries in
          set_and_answer (gm_param table (codes "name")) (gm_param table (codes "value")) d w
    ]
