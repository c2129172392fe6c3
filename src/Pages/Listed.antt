-- ===== src/Pages/Listed.antt =====
-- The page of settings, as a document.
use rigcontrol.Common.{
  ◌∙◌, Bool, true, false, Option, none, some, Bool-cases, inl, inr, ◌<◌, ◌≡◌, refl, ap, ap₂, arith,
  List, [], ◌∷◌, ◌++◌, All, Free, Bytes, codes, length, length-append, length-take, take,
}
use rigcontrol.WebTemplate.{Writer, html_doctype, html_end}
use rigcontrol.WebTemplate.Output.{delivered}
use rigcontrol.WebTemplate.Document.{
  Node, Nodes, text, element, nil, cons, put, put_all, render, IsShort, AreShort,
}
use rigcontrol.WebTemplate.Document.Written.{fresh, put_page}
use rigcontrol.Settings.{
  Result, Setting, gm_nonvolatile, Nvs, Row, row, list_table, gm_nonvolatile_list,
}
use rigcontrol.Pages.{shown_value, sent_value, set_url, setting_row, setting_rows, settings}

-- One element around the other.
abbrev pub one : Node → Nodes
one n = cons n nil

abbrev pub row_node : (Bytes → Bytes) → Row → Node
row_node format r = element (codes "tr") [] (
    cons
      (element (codes "td") [] (
        one (
          element (codes "button")
            ((
              codes "onclick",
              codes "window.location.href='"
                  ++ (set_url r.name (sent_value r.type r.value) ++ codes "';"),
            )
              ∷ [])
            (one (text (format (codes "Set")))))))
      (cons (element (codes "th") [] (one (text (format r.name)))) (
        cons (element (codes "td") [] (one (text (format (shown_value r.type r.value)))))
          (one (element (codes "td") [] (one (text (format r.explanation))))))))

abbrev pub row_nodes : (Bytes → Bytes) → List Row → Nodes
row_nodes format [] = nil
row_nodes format (r ∷ rs) = cons (row_node format r) (row_nodes format rs)

-- What stands inside the page's `html` element.
abbrev pub page : (Bytes → Bytes) → Bytes → Nodes → Nodes
page format title content =
    cons (element (codes "head") [] (one (element (codes "title") [] (one (text (format title))))))
      (one (
        element (codes "body") []
          (cons (element (codes "h1") [] (one (text (format title)))) content)))

abbrev pub settings_page : (Bytes → Bytes) → List Row → Nodes
settings_page format rows =
    page format (codes "Settings") (one (element (codes "table") [] (row_nodes format rows)))

setting_rows-put_all :
    (format : Bytes → Bytes) (rs : List Row) (w : Writer)
    → setting_rows format rs w ≡ put_all (row_nodes format rs) w
unfolding setting_rows put
setting_rows-put_all format [] w = refl
setting_rows-put_all format (r ∷ rs) w = setting_rows-put_all format rs (setting_row format r w)

settings-put :
    (format : Bytes → Bytes) {S : Type 0} (nvs : Nvs S) (s : S) (w : Writer)
    → settings format nvs s w
      ≡ put
          (element (codes "html") [] (settings_page format (gm_nonvolatile_list nvs s)))
          (html_doctype w)
unfolding settings put
settings-put format nvs s w =
    ap (λ x. html_end (html_end (html_end x)))
      (setting_rows-put_all format (gm_nonvolatile_list nvs s) _)

-- What is given as a pattern: no percent sign, and less than half of the buffer.
abbrev pub IsPlain : Bytes → Type 0
IsPlain s = Free b'%' s × (length s < 1024)

pub record IsPlainRow (r : Row) : Type 0 where
  pub name : IsPlain r.name
  pub value : IsPlain r.value
  pub explanation : IsPlain r.explanation

-- What vsnprintf documents: a pattern without a percent sign is written as it is.
abbrev pub IsFormat : (Bytes → Bytes) → Type 0
IsFormat format = (s : Bytes) → Free b'%' s → format s ≡ s

shown_value-IsPlain : (r : Result) (value : Bytes) → IsPlain value → IsPlain (shown_value r value)
shown_value-IsPlain Result.gm_normal value h = h
shown_value-IsPlain Result.gm_secret value h = (omega arith, omega arith)
shown_value-IsPlain Result.gm_not_set value h = (omega arith, omega arith)
shown_value-IsPlain Result.gm_error value h = (omega arith, omega arith)
shown_value-IsPlain Result.gm_not_in_parameter_table value h = (omega arith, omega arith)

-- As the text stands in the document.
abbrev pub same : Bytes → Bytes
same s = s

row_node-IsFormat :
    (format : Bytes → Bytes) (r : Row)
    → IsFormat format
    → IsPlainRow r
    → row_node format r ≡ row_node same r
row_node-IsFormat format r f h =
    rw
      (
        f (codes "Set") (omega arith),
        f r.name h.name.0,
        f (shown_value r.type r.value) (shown_value-IsPlain r.type r.value h.value).0,
        f r.explanation h.explanation.0,
      )
      refl

row_nodes-IsFormat :
    (format : Bytes → Bytes) (rs : List Row)
    → IsFormat format
    → All IsPlainRow rs
    → row_nodes format rs ≡ row_nodes same rs
row_nodes-IsFormat format [] f h = refl
row_nodes-IsFormat format (r ∷ rs) f (h, hs) =
    ap₂ cons (row_node-IsFormat format r f h) (row_nodes-IsFormat format rs f hs)

settings_page-IsFormat :
    (format : Bytes → Bytes) (rs : List Row)
    → IsFormat format
    → All IsPlainRow rs
    → settings_page format rs ≡ settings_page same rs
settings_page-IsFormat format rs f h = rw (f (codes "Settings") (omega arith)) (
    ap (λ ns. page same (codes "Settings") (one (element (codes "table") [] ns)))
      (row_nodes-IsFormat format rs f h))

link_short :
    (r : Row)
    → length (
        codes "window.location.href='"
        ++ (set_url r.name (sent_value r.type r.value) ++ codes "';"))
      < 1024
link_short r =
    let url =
      codes "/setting?name=" ++ (r.name ++ (codes "&value=" ++ sent_value r.type r.value)) in
    omega (
      arith,
      length-append (codes "window.location.href='") (take 127 url ++ codes "';"),
      length-append (take 127 url) (codes "';"),
      length-take 127 url,
    )

row_node-IsShort : (r : Row) → IsPlainRow r → IsShort (row_node same r)
unfolding IsShort
row_node-IsShort r h =
    omega (
      arith,
      link_short r,
      h.name.1,
      (shown_value-IsPlain r.type r.value h.value).1,
      h.explanation.1,
    )

row_nodes-AreShort : (rs : List Row) → All IsPlainRow rs → AreShort (row_nodes same rs)
unfolding IsShort
row_nodes-AreShort [] h = tt
row_nodes-AreShort (r ∷ rs) (h, hs) = (row_node-IsShort r h, row_nodes-AreShort rs hs)

page-IsShort :
    (rs : List Row)
    → All IsPlainRow rs
    → IsShort (element (codes "html") [] (settings_page same rs))
unfolding IsShort
page-IsShort rs h =
    let heading : (name : Bytes)
        → length name < 1000
        → IsShort (element name [] (one (text (codes "Settings")))) =
      λ name k. (k, tt, (omega arith, tt)) in
    let head : IsShort (
        element (codes "head") []
          (one (element (codes "title") [] (one (text (codes "Settings")))))) =
      (omega arith, tt, (heading (codes "title") (omega arith), tt)) in
    let table : IsShort (element (codes "table") [] (row_nodes same rs)) =
      (omega arith, tt, row_nodes-AreShort rs h) in
    (
      omega arith,
      tt,
      (head, ((omega arith, tt, (heading (codes "h1") (omega arith), (table, tt))), tt)),
    )

-- What the page says of a setting, and what its button sends.
abbrev pub displayed : Bool → Option Bytes → Bytes
displayed secret none = codes "(not set)"
displayed true (some value) = codes "(secret)"
displayed false (some value) = value

abbrev pub editable : Bool → Option Bytes → Bytes
editable secret none = []
editable true (some value) = []
editable false (some value) = value

-- The row of a setting that has a value, or none.
abbrev pub setting_node : Setting → Option Bytes → Node
setting_node p value = element (codes "tr") [] (
    cons
      (element (codes "td") [] (
        one (
          element (codes "button")
            ((
              codes "onclick",
              codes "window.location.href='"
                  ++ (take 127 (
                        codes "/setting?name="
                        ++ (p.name ++ (codes "&value=" ++ editable p.secret value)))
                      ++ codes "';"),
            )
              ∷ [])
            (one (text (codes "Set"))))))
      (cons (element (codes "th") [] (one (text p.name))) (
        cons (element (codes "td") [] (one (text (displayed p.secret value))))
          (one (element (codes "td") [] (one (text p.explanation)))))))

module _ {S : Type 0} (nvs : Nvs S) where
  -- A row for each setting, as the store holds it.
  abbrev pub setting_nodes : List Setting → S → Nodes
  setting_nodes [] s = nil
  setting_nodes (p ∷ ps) s =
      cons (setting_node p (nvs.nvs_get_str s p.name 1024)) (setting_nodes ps s)

  row_lem :
      (p : Setting) (value : Option Bytes) → row_node same (row nvs p value) ≡ setting_node p value
  row_lem p none = refl
  row_lem p (some value) = elim (Bool-cases p.secret) [ inl e ↦ rw e refl | inr e ↦ rw e refl ]

  list_table_lem :
      (ps : List Setting) (s : S) → row_nodes same (list_table nvs ps s) ≡ setting_nodes ps s
  unfolding list_table
  list_table_lem [] s = refl
  list_table_lem (p ∷ ps) s =
      ap₂ cons (row_lem p (nvs.nvs_get_str s p.name 1024)) (list_table_lem ps s)

  pub gm_nonvolatile_list_lem :
      (s : S) → row_nodes same (gm_nonvolatile_list nvs s) ≡ setting_nodes gm_nonvolatile s
  unfolding gm_nonvolatile_list
  gm_nonvolatile_list_lem s = list_table_lem gm_nonvolatile s

-- The document of the page.
abbrev pub settings_document : {S : Type 0} → Nvs S → S → Node
settings_document nvs s = element (codes "html") [] (
    page same (codes "Settings")
      (one (element (codes "table") [] (setting_nodes nvs gm_nonvolatile s))))

-- The page of settings: if no name, value or explanation has a percent sign or as many bytes as half
-- of the buffer, the handler sends exactly the document that has a row for each setting of the table
-- in order, with its name, its value, or that it is secret or not set, its explanation and a button
-- that leads to its form; all tags are ended and gm_web_finish is called once. vsnprintf writes a
-- pattern without a percent sign as it is.
pub settings-page :
    (format : Bytes → Bytes) {S : Type 0} (nvs : Nvs S) (s : S)
    → IsFormat format
    → All IsPlainRow (gm_nonvolatile_list nvs s)
    → let w = settings format nvs s fresh in
      (delivered w.sent ≡ codes "<!DOCTYPE HTML>\n" ++ render (settings_document nvs s))
      × (w.buffer ≡ [])
      × (w.tags ≡ [])
      × (w.finished ≡ 1)
      × (w.failures ≡ 0)
settings-page format nvs s f h =
    let rows = gm_nonvolatile_list nvs s in
    let (sent, buffer, tags, finished, failures) =
      put_page (codes "html") [] (settings_page same rows) (page-IsShort rows h) in
    let document : element (codes "html") [] (settings_page same rows) ≡ settings_document nvs s =
      ap
        (λ ns.
          element (codes "html") []
            (page same (codes "Settings") (one (element (codes "table") [] ns))))
        (gm_nonvolatile_list_lem nvs s) in
    rw (settings-put format nvs s fresh, settings_page-IsFormat format rows f h)
      (
        sent ∙ ap (λ d. codes "<!DOCTYPE HTML>\n" ++ render d) document,
        buffer,
        tags,
        finished,
        failures,
      )
