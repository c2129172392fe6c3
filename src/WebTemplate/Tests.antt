-- ===== src/WebTemplate/Tests.antt =====
-- Runs of the template calls, and their theorems at concrete inputs.
use rigcontrol.Common.{◌≡◌, refl, arith, [], ◌∷◌, codes}
use rigcontrol.WebTemplate.{html_end, html_doctype, finish_current_tag}
use rigcontrol.WebTemplate.Output.{delivered}
use rigcontrol.WebTemplate.Document.{Nodes, text, element, void, nil, cons, put, render, IsShort}
use rigcontrol.WebTemplate.Document.Written.{fresh, put_page}

-- The form of the settings page: an input tag, which has no end, inside a form.
abbrev content : Nodes
content =
    cons (void (codes "input") ((codes "type", codes "submit") ∷ []))
      (cons (text (codes "Set")) nil)

end_without_tag : (html_end fresh).failures ≡ 1
unfolding html_end finish_current_tag
end_without_tag = refl

render_form :
    render (element (codes "form") [] content) ≡ codes "<form><input type=\"submit\">Set</form>"
unfolding render
render_form = refl

put_page_example :
    let w =
      put
        (element (codes "form") ((codes "method", codes "post") ∷ []) content)
        (html_doctype fresh) in
    (delivered w.sent
      ≡ codes "<!DOCTYPE HTML>\n<form method=\"post\"><input type=\"submit\">Set</form>")
    × (w.buffer ≡ [])
    × (w.tags ≡ [])
    × (w.finished ≡ 1)
    × (w.failures ≡ 0)
unfolding IsShort render
put_page_example =
    put_page (codes "form") ((codes "method", codes "post") ∷ []) content (omega arith)
