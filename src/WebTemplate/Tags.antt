-- ===== src/WebTemplate/Tags.antt =====
-- components/web_handlers/include/web_template.h: the macros that open tags.
pub mod Void
use rigcontrol.Common.{
  Bool, true, false, not, Option, none, some, List, [], ◌∷◌, ◌++◌, Bytes, codes, str_eq,
  if◌then◌else◌,
}
use rigcontrol.WebTemplate.{Writer, html_tag}

-- A macro: its name, the name of the tag, and whether other tags may stand in it.
pub record TagMacro : Type 0 where
  pub macro_name : Bytes
  pub tag_name : Bytes
  pub nesting : Bool

abbrev pub tag_of : Bytes → Bytes → Bool → TagMacro
tag_of macro_name tag_name nesting = record {
  macro_name = macro_name;
  tag_name = tag_name;
  nesting = nesting;
}

abbrev pub tags_a_to_f : List TagMacro
tags_a_to_f =
    tag_of (codes "a") (codes "a") true
    ∷ tag_of (codes "abbr") (codes "abbr") true
    ∷ tag_of (codes "address") (codes "address") true
    ∷ tag_of (codes "area") (codes "area") false
    ∷ tag_of (codes "article") (codes "article") true
    ∷ tag_of (codes "aside") (codes "aside") true
    ∷ tag_of (codes "audio") (codes "audio") true
    ∷ tag_of (codes "b") (codes "b") true
    ∷ tag_of (codes "base") (codes "base") false
    ∷ tag_of (codes "bdi") (codes "bdi") true
    ∷ tag_of (codes "bdo") (codes "bdo") true
    ∷ tag_of (codes "blockquote") (codes "blockquote") true
    ∷ tag_of (codes "body") (codes "body") true
    ∷ tag_of (codes "br") (codes "br") false
    ∷ tag_of (codes "button") (codes "button") true
    ∷ tag_of (codes "canvas") (codes "canvas") true
    ∷ tag_of (codes "caption") (codes "caption") true
    ∷ tag_of (codes "cite") (codes "cite") true
    ∷ tag_of (codes "code") (codes "code") true
    ∷ tag_of (codes "col") (codes "col") false
    ∷ tag_of (codes "colgroup") (codes "colgroup") true
    ∷ tag_of (codes "data") (codes "data") true
    ∷ tag_of (codes "datalist") (codes "datalist") true
    ∷ tag_of (codes "dd") (codes "dd") true
    ∷ tag_of (codes "del") (codes "del") true
    ∷ tag_of (codes "details") (codes "details") true
    ∷ tag_of (codes "dfn") (codes "dfn") true
    ∷ tag_of (codes "dialog") (codes "dialog") true
    ∷ tag_of (codes "div") (codes "div") true
    ∷ tag_of (codes "dl") (codes "dl") true
    ∷ tag_of (codes "dt") (codes "dt") true
    ∷ tag_of (codes "em") (codes "em") true
    ∷ tag_of (codes "embed") (codes "embed") false
    ∷ tag_of (codes "fieldset") (codes "fieldset") true
    ∷ tag_of (codes "figcaption") (codes "figcaption") true
    ∷ tag_of (codes "figure") (codes "figure") true
    ∷ tag_of (codes "footer") (codes "footer") true
    ∷ tag_of (codes "form") (codes "form") true
    ∷ tag_of (codes "h1") (codes "h1") true
    ∷ tag_of (codes "head") (codes "head") true
    ∷ []

abbrev pub tags_f_to_p : List TagMacro
tags_f_to_p =
    tag_of (codes "header") (codes "header") true
    ∷ tag_of (codes "hgroup") (codes "hgroup") true
    ∷ tag_of (codes "hr") (codes "hr") false
    ∷ tag_of (codes "html") (codes "html") true
    ∷ tag_of (codes "i") (codes "i") true
    ∷ tag_of (codes "iframe") (codes "iframe") true
    ∷ tag_of (codes "img") (codes "img") false
    ∷ tag_of (codes "input") (codes "input") false
    ∷ tag_of (codes "ins") (codes "ins") true
    ∷ tag_of (codes "kbd") (codes "kbd") true
    ∷ tag_of (codes "keygen") (codes "keygen") false
    ∷ tag_of (codes "label") (codes "label") true
    ∷ tag_of (codes "legend") (codes "legend") true
    ∷ tag_of (codes "li") (codes "li") true
    ∷ tag_of (codes "link") (codes "link") false
    ∷ tag_of (codes "main") (codes "main") true
    ∷ tag_of (codes "map") (codes "map") true
    ∷ tag_of (codes "mark") (codes "mark") true
    ∷ tag_of (codes "menu") (codes "menu") true
    ∷ tag_of (codes "menuitem") (codes "menuitem") true
    ∷ tag_of (codes "meta") (codes "meta") false
    ∷ tag_of (codes "meter") (codes "meter") true
    ∷ tag_of (codes "nav") (codes "nav") true
    ∷ tag_of (codes "noscript") (codes "noscript") true
    ∷ tag_of (codes "object") (codes "object") true
    ∷ tag_of (codes "ol") (codes "ol") true
    ∷ tag_of (codes "optgroup") (codes "optgroup") true
    ∷ tag_of (codes "option") (codes "option") true
    ∷ tag_of (codes "output") (codes "output") true
    ∷ tag_of (codes "p") (codes "p") true
    ∷ tag_of (codes "param") (codes "param") false
    ∷ tag_of (codes "picture") (codes "picture") true
    ∷ tag_of (codes "pre") (codes "pre") true
    ∷ tag_of (codes "progress") (codes "progress") true
    ∷ tag_of (codes "q") (codes "q") true
    ∷ tag_of (codes "rp") (codes "rp") true
    ∷ tag_of (codes "rt") (codes "rt") true
    ∷ tag_of (codes "ruby") (codes "ruby") true
    ∷ tag_of (codes "s") (codes "s") true
    ∷ tag_of (codes "samp") (codes "samp") true
    ∷ []

abbrev pub tags_p_to_w : List TagMacro
tags_p_to_w =
    tag_of (codes "script") (codes "script") true
    ∷ tag_of (codes "section") (codes "section") true
    ∷ tag_of (codes "select") (codes "select") true
    ∷ tag_of (codes "small") (codes "small") true
    ∷ tag_of (codes "source") (codes "source") false
    ∷ tag_of (codes "span") (codes "span") true
    ∷ tag_of (codes "strong") (codes "strong") true
    ∷ tag_of (codes "style") (codes "style") true
    ∷ tag_of (codes "sub") (codes "sub") true
    ∷ tag_of (codes "summary") (codes "summary") true
    ∷ tag_of (codes "sup") (codes "sup") true
    ∷ tag_of (codes "svg") (codes "svg") true
    ∷ tag_of (codes "table") (codes "table") true
    ∷ tag_of (codes "tbody") (codes "tbody") true
    ∷ tag_of (codes "td") (codes "td") true
    ∷ tag_of (codes "template") (codes "template") true
    ∷ tag_of (codes "textarea") (codes "textarea") true
    ∷ tag_of (codes "tfoot") (codes "tfoot") true
    ∷ tag_of (codes "th") (codes "th") true
    ∷ tag_of (codes "thead") (codes "thead") true
    ∷ tag_of (codes "time") (codes "time") true
    ∷ tag_of (codes "title") (codes "title") true
    ∷ tag_of (codes "tr") (codes "tr") true
    ∷ tag_of (codes "track") (codes "track") false
    ∷ tag_of (codes "u") (codes "u") true
    ∷ tag_of (codes "ul") (codes "ul") true
    ∷ tag_of (codes "var") (codes "var") true
    ∷ tag_of (codes "video") (codes "video") true
    ∷ tag_of (codes "wbr") (codes "wbr") false
    ∷ []

unfoldable pub tags : List TagMacro
tags = tags_a_to_f ++ (tags_f_to_p ++ tags_p_to_w)

-- What a name in a page stands for: `none` is a name that is not a macro of a tag.
unfoldable pub find_macro : Bytes → List TagMacro → Option TagMacro
unfolding str_eq
find_macro name [] = none
find_macro name (m ∷ ms) =
    let rest = find_macro name ms in if str_eq m.macro_name name then some m else rest

unfoldable pub call_macro : TagMacro → Writer → Writer
unfolding html_tag
call_macro m w = html_tag m.tag_name m.nesting w
