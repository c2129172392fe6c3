-- ===== src/Filesystem/Tests.antt =====
-- An image of two files, with bytes that stand for their own compression.
use rigcontrol.Common.{
  ℕ, ◌≡◌, ◌∙◌, ap, true, refl, inr, arith, false, none, some, List, [], ◌∷◌, All, Free, Bytes,
  codes, append-nil,
}
use rigcontrol.Uri.Params.{IsPlain}
use rigcontrol.Web.{WebMethod, Handlers, gm_web_handler_run}
use rigcontrol.Filesystem.Generate.{File, fs_gen}
use rigcontrol.Filesystem.Read.{fs_read}
use rigcontrol.Filesystem.Descend.{
  Items, nothing, entry, regular, directory, symbolic_link, descend, generate,
}
use rigcontrol.Filesystem.Tree.{walk, IsNamed}
use rigcontrol.Filesystem.Tree.Embedded.{fs_read-generate, http_file_handler-generate}
use rigcontrol.Filesystem.Fits.{fs_gen_fits}
use rigcontrol.Filesystem.Serve.{http_file_handler}
use rigcontrol.Filesystem.Serve.Page.{Answers}

abbrev same : Bytes → Bytes
same s = s

abbrev one_piece : Bytes → List Bytes
one_piece s = s ∷ []

abbrev files : List File
files =
    record { name = codes "a.gif"; pathname = codes "img/a.gif"; contents = 1 ∷ 2 ∷ 3 ∷ [] }
    ∷ record { name = codes "index"; pathname = codes "index"; contents = codes "hello" }
    ∷ []

strings : All (λ (f : File). Free 0 f.pathname) files
strings = ground arith

abbrev made : (image : Bytes) × (fs_gen same files ≡ some image)
made = fs_gen_fits same files (omega arith)

abbrev no_handlers : Handlers ℕ
no_handlers = record { gets = []; puts = []; posts = [] }

index-IsPlain : IsPlain (codes "index")
index-IsPlain = record {
  no_query = ground arith;
  no_escape = ground arith;
  no_null = ground arith;
  path_fits = omega arith;
}

-- A directory with a file, a directory, an entry that readdir gives no type for, and a link.
abbrev items : Items
items = entry (codes ".") true (directory nothing) (
    entry (codes "img") true
      (directory (entry (codes "a.gif") true (regular (1 ∷ 2 ∷ 3 ∷ [])) nothing))
      (entry (codes "index") false (symbolic_link (regular (codes "hello")))
        (entry (codes "link") true (symbolic_link (regular (codes "no"))) nothing)))

items-files : descend none items ≡ files
unfolding descend
items-files = refl

generated : generate same items ≡ some made.0
unfolding generate
generated = ap (fs_gen same) items-files ∙ made.1

items-IsNamed : IsNamed none items
unfolding IsNamed
items-IsNamed = ground arith

fs_read-generate_example :
    fs_read same made.0 (codes "img/a.gif") ≡ walk (codes "img") (codes "a.gif" ∷ []) items
fs_read-generate_example =
    fs_read-generate same same items made.0 (codes "img") (codes "a.gif" ∷ []) (λ x. refl)
      items-IsNamed (ground arith) generated

img-IsPlain : IsPlain (codes "img/a.gif")
img-IsPlain = record {
  no_query = ground arith;
  no_escape = ground arith;
  no_null = ground arith;
  path_fits = omega arith;
}

http_file_handler-generate_example :
    Answers same one_piece append-nil
      (walk (codes "img") (codes "a.gif" ∷ []) items)
      (http_file_handler one_piece none made.0 no_handlers (b'/' ∷ codes "img/a.gif") 0)
      0
      (gm_web_handler_run no_handlers
        (b'/' ∷ codes "img/a.gif")
        (record {
          failed = false;
          path = codes "img/a.gif";
          params = [];
          uri = b'/' ∷ codes "img/a.gif";
        })
        WebMethod.get
        0)
http_file_handler-generate_example =
    http_file_handler-generate same one_piece append-nil none items made.0 (codes "img")
      (codes "a.gif" ∷ []) no_handlers 0 items-IsNamed (ground arith) generated img-IsPlain
      (λ c e. inr refl)
