-- ===== src/Filesystem/Tree/Embedded.antt =====
-- What fs_gen embeds of a directory is read back, and served, by the path in the directory.
use mathlib.Core.Path.{subst}
use rigcontrol.Common.{
  take_all, ◌≡◌, ◌≢◌, ◌∙◌, inl, inr, Bool, true, false, Option, none, some, List, [], ◌∷◌, Bytes,
  All, All-append, Free, Bool-cases, arith,
}
use rigcontrol.Filesystem.Read.{fs_read}
use rigcontrol.Filesystem.RoundTrip.{fs_read-fs_gen}
use rigcontrol.Filesystem.Descend.{
  Items, Node, nothing, entry, regular, directory, symbolic_link, special, is_dots, joined_path,
  descend, descend_entry, generate,
}
use rigcontrol.Uri.Params.{IsPlain}
use rigcontrol.Web.{WebMethod, Handlers, gm_web_handler_run}
use rigcontrol.Filesystem.Serve.{http_file_handler}
use rigcontrol.Filesystem.Serve.Page.{joined, CanSend, Answers, http_file_handler-fs_gen}
use rigcontrol.Filesystem.Tree.{join, walk, IsNamed, IsNodeNamed}
use rigcontrol.Filesystem.Tree.Walked.{lookup-descend}

abbrev HasNoNull : Option Bytes → Type 0
HasNoNull none = Unit
HasNoNull (some at) = Free 0 at

joined_path-Free :
    (at : Option Bytes) (name : Bytes) → HasNoNull at → Free 0 name → Free 0 (joined_path at name)
joined_path-Free none name h f = f
joined_path-Free (some at) name h f =
    All-append (λ c. c ≢ 0) at (b'/' ∷ name) h ((λ e. omega (arith, e)), f)

mutual
  unfolding descend IsNamed

  descend-Free :
      (at : Option Bytes) (items : Items)
      → HasNoNull at
      → IsNamed at items
      → All (λ f. Free 0 f.pathname) (descend at items)
  descend-Free at nothing h named = tt
  descend-Free at (entry name typed node rest) h (slash, free, fits, within, named) =
      let later = descend-Free at rest h named in
      elim (Bool-cases (is_dots name)) [
        | inl e ↦ rw e later
        | inr e ↦
            rw (e, take_all 1023 (joined_path at name) fits)
              (All-append (λ f. Free 0 f.pathname)
                (descend_entry (joined_path at name) name typed node) (descend at rest)
                (descend_entry-Free (joined_path at name) name typed node
                  (joined_path-Free at name h free) within)
                later)
      ]

  descend_entry-Free :
      (at name : Bytes) (typed : Bool) (node : Node)
      → Free 0 at
      → IsNodeNamed at node
      → All (λ f. Free 0 f.pathname) (descend_entry at name typed node)
  descend_entry-Free at name typed (regular contents) h within = (h, tt)
  descend_entry-Free at name typed (directory items) h within =
      descend-Free (some at) items h within
  descend_entry-Free at name true (symbolic_link node) h within = tt
  descend_entry-Free at name false (symbolic_link node) h within =
      descend_entry-Free at name false node h within
  descend_entry-Free at name typed special h within = tt

-- A directory is read back from the image that fs_gen makes of it: a path gives the contents of the
-- first file that its names lead to from the directory, or is not found if there is none; if
-- decompressing undoes compressing, the names in the directory and in the path are free of slashes,
-- those in the directory of nulls, and no path is cut off at 1,023 bytes.
pub fs_read-generate :
    (compress decompress : Bytes → Bytes) (items : Items) (image name : Bytes) (names : List Bytes)
    → ((x : Bytes) → decompress (compress x) ≡ x)
    → IsNamed none items
    → All (Free b'/') (name ∷ names)
    → generate compress items ≡ some image
    → fs_read decompress image (join name names) ≡ walk name names items
unfolding generate
fs_read-generate compress decompress items image name names inverse named frees made =
    fs_read-fs_gen compress decompress (descend none items) image (join name names) inverse
      (descend-Free none items tt named) made
    ∙ lookup-descend none name names items frees named

-- A GET request for a plain path of names is answered from the image that fs_gen makes of a directory
-- with the contents of the first file that the names lead to, if it can be sent as the client asks, and
-- is left to the registered handlers if there is none; under the conditions of fs_read-generate, with
-- the client's decompression of the pieces for the inverse.
pub http_file_handler-generate :
    {W : Type 0} (compress : Bytes → Bytes) (pieces : Bytes → List Bytes)
    (inverse : (x : Bytes) → joined (pieces (compress x)) ≡ x) (header : Option Bytes)
    (items : Items) (image name : Bytes) (names : List Bytes) (handlers : Handlers W) (w : W)
    → IsNamed none items
    → All (Free b'/') (name ∷ names)
    → generate compress items ≡ some image
    → IsPlain (join name names)
    → ((c : Bytes) → walk name names items ≡ some c → CanSend compress pieces header c)
    → Answers compress pieces inverse
        (walk name names items)
        (http_file_handler pieces header image handlers (b'/' ∷ join name names) w)
        w
        (gm_web_handler_run handlers
          (b'/' ∷ join name names)
          (record {
            failed = false;
            path = join name names;
            params = [];
            uri = b'/' ∷ join name names;
          })
          WebMethod.get
          w)
unfolding generate
http_file_handler-generate compress pieces inverse header items image name names handlers w named
      frees made is_plain can =
    let path = lookup-descend none name names items frees named in
    subst
      (λ found.
        Answers compress pieces inverse found
          (http_file_handler pieces header image handlers (b'/' ∷ join name names) w) w
          (gm_web_handler_run handlers (b'/' ∷ join name names)
            (record {
              failed = false;
              path = join name names;
              params = [];
              uri = b'/' ∷ join name names;
            })
            WebMethod.get w))
      path
      (http_file_handler-fs_gen compress pieces inverse header (descend none items) image
        (join name names) handlers w (descend-Free none items tt named) made is_plain
        (λ c e. can c (rw path at e)))
