-- ===== src/WebTemplate/Document/Written.antt =====
-- The calls for a document write its HTML.
use rigcontrol.Common.{
  ℕ, ◌<◌, ◌≡◌, refl, ap, ◌∙◌, arith, Bool, true, false, List, [], ◌∷◌, ◌++◌, append_assoc,
  append-nil, Bytes, codes, length, All,
}
use rigcontrol.WebTemplate.{Tag, Writer, html_tag, html_attr, html_text, html_doctype, leave}
use rigcontrol.WebTemplate.Output.{delivered, delivered-last, Settled, Opened}
use rigcontrol.WebTemplate.Calls.{
  html_text-Settled, html_tag-Opened, attribute, html_attr-Opened, Opened-Settled,
  Opened-Settled_void, end_tag, html_end-Settled, html_end-Closed, Closed,
}
use rigcontrol.WebTemplate.Document.{
  Attributes, Node, text, element, void, Nodes, nil, cons, attributes, start_tag, render,
  render_all, put_attributes, put, put_all, IsShortAttribute, IsShort, AreShort,
}

put_attributes-Opened :
    {tag : Bytes} {nesting : Bool} {base : List Tag} {f : ℕ} (attrs : Attributes) (out : Bytes)
    (w : Writer)
    → All IsShortAttribute attrs
    → Opened tag nesting base out f w
    → Opened tag nesting base (out ++ attributes attrs) f (put_attributes attrs w)
put_attributes-Opened [] out w h o = let e = append-nil out in rw e o
put_attributes-Opened ((name, value) ∷ as') out w ((hn, hv), h) o =
    rw (← append_assoc out (attribute (name, value)) (attributes as')) (
      put_attributes-Opened as' (out ++ attribute (name, value)) (html_attr name value w) h
        (html_attr-Opened name value hn hv o))

-- A tag with its attributes.
put_start-Opened :
    {base : List Tag} {f : ℕ} (name : Bytes) (attrs : Attributes) (nesting : Bool) (out : Bytes)
    (w : Writer)
    → length name < 1000
    → All IsShortAttribute attrs
    → Settled base out f w
    → Opened name nesting base
        ((out ++ b'<' ∷ name) ++ attributes attrs)
        f
        (put_attributes attrs (html_tag name nesting w))
put_start-Opened name attrs nesting out w h k s =
    put_attributes-Opened attrs (out ++ b'<' ∷ name) (html_tag name nesting w) k
      (html_tag-Opened name nesting h s)

start_tag-append :
    (out name : Bytes) (attrs : Attributes)
    → ((out ++ b'<' ∷ name) ++ attributes attrs) ++ codes ">" ≡ out ++ start_tag name attrs
start_tag-append out name attrs =
    append_assoc (out ++ b'<' ∷ name) (attributes attrs) (codes ">")
    ∙ append_assoc out (b'<' ∷ name) (attributes attrs ++ codes ">")

module _ (f : ℕ) where
  mutual
    unfolding put put_all render render_all IsShort AreShort

    put-Settled :
        (n : Node) (outer : Tag) (base : List Tag) (out : Bytes) (w : Writer)
        → IsShort n
        → Settled (outer ∷ base) out f w
        → Settled (outer ∷ base) (out ++ render n) f (put n w)
    put-Settled (text t) outer base out w h s = html_text-Settled t h s
    put-Settled (void name attrs) outer base out w (h, k) s =
        rw (← start_tag-append out name attrs)
          (Opened-Settled_void (put_start-Opened name attrs false out w h k s))
    put-Settled (element name attrs content) outer base out w (h, k, hc) s =
        let opened = Opened-Settled (put_start-Opened name attrs true out w h k s) in
        let out' = ((out ++ b'<' ∷ name) ++ attributes attrs) ++ codes ">" in
        let inner =
          put_all-Settled content (record { name = name; opened = false; nesting = true })
            (outer ∷ base) out' (put_attributes attrs (html_tag name true w)) hc opened in
        let e : (out' ++ render_all content) ++ end_tag name
            ≡ out ++ (start_tag name attrs ++ (render_all content ++ end_tag name)) =
          append_assoc out' (render_all content) (end_tag name)
          ∙ (ap (λ o. o ++ (render_all content ++ end_tag name)) (start_tag-append out name attrs)
              ∙ append_assoc out (start_tag name attrs) (render_all content ++ end_tag name)) in
        rw (← e) (html_end-Settled h s.closed inner)

    put_all-Settled :
        (ns : Nodes) (outer : Tag) (base : List Tag) (out : Bytes) (w : Writer)
        → AreShort ns
        → Settled (outer ∷ base) out f w
        → Settled (outer ∷ base) (out ++ render_all ns) f (put_all ns w)
    put_all-Settled nil outer base out w h s = rw (append-nil out) s
    put_all-Settled (cons n ns) outer base out w (h, hs) s =
        rw (← append_assoc out (render n) (render_all ns)) (
          put_all-Settled ns outer base (out ++ render n) (put n w) hs
            (put-Settled n outer base out w h s))

-- A page that the calls write from the start: `html_doctype`, then one element.
abbrev pub fresh : Writer
fresh = record { tags = []; buffer = []; sent = []; finished = 0; failures = 0 }

fresh-Settled : Settled [] [] 0 fresh
fresh-Settled = record {
  valid = record { half = omega arith; no_failures = refl; chunks = tt };
  tags = refl;
  output = refl;
  finished = refl;
  closed = refl;
}

-- What the end of the outermost element leaves.
page_end :
    {out : Bytes} (w w' : Writer)
    → w ≡ leave [] w'
    → Closed [] out 0 w'
    → (delivered w.sent ≡ out)
      × (w.buffer ≡ [])
      × (w.tags ≡ [])
      × (w.finished ≡ 1)
      × (w.failures ≡ 0)
page_end w w' e c = rw e (
  delivered-last w'.sent w'.buffer c.valid.chunks ∙ c.output,
  refl,
  c.tags,
  omega (arith, c.finished),
  c.valid.no_failures,
)

-- The calls for a page, the document type and then an element with all that it contains, send
-- exactly its HTML in front of the first chunk that ends the response, and call gm_web_finish once:
-- every tag is closed and ended in order, and nothing stays in the buffer. No name, value or text alone reaches half of the buffer.
pub put_page :
    (name : Bytes) (attrs : Attributes) (content : Nodes)
    → IsShort (element name attrs content)
    → let w = put (element name attrs content) (html_doctype fresh) in
      (delivered w.sent ≡ codes "<!DOCTYPE HTML>\n" ++ render (element name attrs content))
      × (w.buffer ≡ [])
      × (w.tags ≡ [])
      × (w.finished ≡ 1)
      × (w.failures ≡ 0)
unfolding put render IsShort html_doctype
put_page name attrs content (h, k, hc) =
    let doctype = codes "<!DOCTYPE HTML>\n" in
    let s = html_text-Settled doctype (omega arith) fresh-Settled in
    let w = html_text doctype fresh in
    let opened = Opened-Settled (put_start-Opened name attrs true doctype w h k s) in
    let out' = ((doctype ++ b'<' ∷ name) ++ attributes attrs) ++ codes ">" in
    let inner =
      put_all-Settled 0 content (record { name = name; opened = false; nesting = true }) [] out'
        (put_attributes attrs (html_tag name true w)) hc opened in
    let (w', e, c) = html_end-Closed h inner in
    let all : (out' ++ render_all content) ++ end_tag name
        ≡ doctype ++ (start_tag name attrs ++ (render_all content ++ end_tag name)) =
      append_assoc out' (render_all content) (end_tag name)
      ∙ (ap (λ o. o ++ (render_all content ++ end_tag name)) (start_tag-append doctype name attrs)
          ∙ append_assoc doctype (start_tag name attrs) (render_all content ++ end_tag name)) in
    let (sent, buffer, tags, finished, failures) =
      page_end (put (element name attrs content) w) w' e c in
    (sent ∙ all, buffer, tags, finished, failures)
