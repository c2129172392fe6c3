-- ===== src/WebTemplate/Document.antt =====
-- The pages that the calls write for a document.
pub mod Written
use rigcontrol.Common.{
  ℕ, zero, suc, ◌+◌, ◌≤◌, ◌<◌, ◌≡◌, ◌≢◌, refl, sym, ap, ap₂, ◌∙◌, arith, Bool, true, false, List,
  [], ◌∷◌, ◌++◌, append_assoc, append-nil, Bytes, codes, length, length-append, All,
}
use rigcontrol.WebTemplate.{
  Tag, Writer, flush, html_tag, is_open, html_attr, html_text, html_doctype, leave, html_end,
}
use rigcontrol.WebTemplate.Output.{written, written-flush, IsValid, Settled, Opened}
use rigcontrol.WebTemplate.Calls.{
  html_text-Settled, html_tag-Opened, attribute, html_attr-Opened, Opened-Settled,
  Opened-Settled_void, end_tag, html_end-Settled, html_end-Closed, Closed,
}

abbrev pub Attributes : Type 0
Attributes = List (Bytes × Bytes)

-- A piece of a page: text, an element with its content, or a tag that has no end.
mutual
  pub data Node : Type 0 where
    text : Bytes → Node
    element : Bytes → Attributes → Nodes → Node
    void : Bytes → Attributes → Node

  pub data Nodes : Type 0 where
    nil : Nodes
    cons : Node → Nodes → Nodes

-- The HTML of a piece.
abbrev pub attributes : Attributes → Bytes
attributes [] = []
attributes (a ∷ as') = attribute a ++ attributes as'

abbrev pub start_tag : Bytes → Attributes → Bytes
start_tag name attrs = (b'<' ∷ name) ++ (attributes attrs ++ codes ">")

unfoldable mutual
  pub render : Node → Bytes
  render (text t) = t
  render (element name attrs content) = start_tag name attrs ++ (render_all content ++ end_tag name)
  render (void name attrs) = start_tag name attrs

  pub render_all : Nodes → Bytes
  render_all nil = []
  render_all (cons n ns) = render n ++ render_all ns

-- The calls that write a piece, as the web handlers make them.
abbrev pub put_attributes : Attributes → Writer → Writer
put_attributes [] w = w
put_attributes ((name, value) ∷ as') w = put_attributes as' (html_attr name value w)

unfoldable mutual
  pub put : Node → Writer → Writer
  put (text t) w = html_text t w
  put (element name attrs content) w =
      html_end (put_all content (put_attributes attrs (html_tag name true w)))
  put (void name attrs) w = put_attributes attrs (html_tag name false w)

  pub put_all : Nodes → Writer → Writer
  put_all nil w = w
  put_all (cons n ns) w = put_all ns (put n w)

-- No single piece of output reaches half of the buffer.
abbrev pub IsShortAttribute : Bytes × Bytes → Type 0
IsShortAttribute (name, value) = (length name < 1000) × (length value < 1024)

unfoldable mutual
  pub IsShort : Node → Type 0
  IsShort (text t) = length t < 1024
  IsShort (element name attrs content) =
      (length name < 1000) × All IsShortAttribute attrs × AreShort content
  IsShort (void name attrs) = (length name < 1000) × All IsShortAttribute attrs

  pub AreShort : Nodes → Type 0
  AreShort nil = Unit
  AreShort (cons n ns) = IsShort n × AreShort ns
