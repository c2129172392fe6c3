-- ===== src/Pages/Setting/Posted.antt =====
-- A form that is posted sets the value, and is answered with a page.
use rigcontrol.Common.{[], ◌∷◌, Bytes, codes, take}
use rigcontrol.WebTemplate.Document.{Node, Nodes, text, element, cons}
use rigcontrol.Uri.Params.{form}
use rigcontrol.Pages.Listed.{one, page}
use rigcontrol.Pages.Setting.{title_of}

abbrev link_node : Bytes → Bytes → Node
link_node href t =
    element (codes "li") [] (one (element (codes "a") ((codes "href", href) ∷ []) (one (text t))))

-- What stands inside the page's `html` element.
abbrev pub answer_page : (Bytes → Bytes) → Bytes → Bytes → Nodes
answer_page format name answer = page format (take 127 (title_of name)) (
    cons (text answer) (
      one (
        element (codes "ul") [] (
          cons (link_node (codes "/") (codes "Front page."))
            (one (link_node (codes "/settings") (codes "Settings.")))))))

-- The form of a setting, as the page of the setting sends it.
abbrev pub setting_data : Bytes → Bytes → Bytes
setting_data name value = form (codes "name", name) ((codes "value", value) ∷ [])
