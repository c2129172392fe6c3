-- ===== src/Filesystem/Serve/Page.antt =====
-- What the client receives of a file.
use rigcontrol.Common.{
  ℕ, zero, suc, ◌≤◌, ◌≡◌, ◌≢◌, ◌⊎◌, ◌∙◌, refl, sym, ap, inl, inr, arith, Bool, true, false, Option,
  none, some, List, [], ◌∷◌, ◌++◌, append_assoc, All, Free, Bytes, length, take, drop,
  if◌then◌else◌,
}
use rigcontrol.Uri.Params.{IsPlain, gm_uri_parse-plain}
use rigcontrol.Web.{WebMethod, Handlers, gm_web_handler_run}
use rigcontrol.Filesystem.{Entry, header_size}
use rigcontrol.Filesystem.Generate.{File, fs_gen}
use rigcontrol.Filesystem.Read.{RawEntry}
use rigcontrol.Filesystem.Placed.{take-At}
use rigcontrol.Filesystem.Stored.{Data, empty, plain, packed}
use rigcontrol.Filesystem.Locate.{raw, lookup, Found, missing, present, At-from}
use rigcontrol.Filesystem.Image.{search_image, fs_gen-Found}
use rigcontrol.Filesystem.Serve.{
  Response, maximum_chunk_size, send_chunks, send_all, send_pieces, sends_uncompressed, read_file,
  Reply, file, after_handler, serve_found, http_file_handler,
}

-- A client takes the chunks up to the first empty one.
unfoldable pub received : List Bytes → Bytes
received [] = []
received ([] ∷ chunks) = []
received ((c ∷ cs) ∷ chunks) = (c ∷ cs) ++ received chunks

take-drop : (n : ℕ) (s : Bytes) → take n s ++ drop n s ≡ s
take-drop zero s = refl
take-drop (suc n) [] = refl
take-drop (suc n) (c ∷ s) = ap (◌∷◌ c) (take-drop n s)

length-drop_le : (n : ℕ) (s : Bytes) → length (drop n s) ≤ length s
length-drop_le zero s = omega arith
length-drop_le (suc n) [] = omega arith
length-drop_le (suc n) (c ∷ s) = omega (arith, length-drop_le n s)

-- With one round for each byte the loop sends all of them.
received-send_chunks :
    (fuel : ℕ) (bytes : Bytes) (rest : List Bytes)
    → length bytes ≤ fuel
    → received (send_chunks fuel bytes ++ rest) ≡ bytes
unfolding send_chunks received
received-send_chunks zero [] rest h = refl
received-send_chunks zero (c ∷ cs) rest h = absurd (omega (arith, h))
received-send_chunks (suc fuel) [] rest h = refl
received-send_chunks (suc fuel) (c ∷ cs) rest h =
    ap (λ s. take maximum_chunk_size (c ∷ cs) ++ s)
      (received-send_chunks fuel (drop maximum_chunk_size (c ∷ cs)) rest
        (omega (arith, h, length-drop_le 4095 cs)))
    ∙ take-drop maximum_chunk_size (c ∷ cs)

received-send_all : (bytes : Bytes) (rest : List Bytes) → received (send_all bytes ++ rest) ≡ bytes
unfolding send_all
received-send_all bytes rest = received-send_chunks (length bytes) bytes rest (omega arith)

-- All pieces of a list, one after the other.
abbrev pub joined : List Bytes → Bytes
joined [] = []
joined (s ∷ ss) = s ++ joined ss

module _ (compress : Bytes → Bytes) (pieces : Bytes → List Bytes) where
  -- What the client makes of a response: it undoes the encoding that the response names.
  unfoldable pub page_of : Response → Bytes
  unfolding received
  page_of r = if r.deflate then joined (pieces (received r.chunks)) else received r.chunks

  -- The file can be sent in the way that the client's header asks for: compressed, or uncompressed
  -- in a single piece.
  abbrev pub CanSend : Option Bytes → Bytes → Type 0
  CanSend header contents =
      (sends_uncompressed header ≡ false) ⊎ (pieces (compress contents) ≡ contents ∷ [])

  module _ (inverse : (x : Bytes) → joined (pieces (compress x)) ≡ x) where
    page_of-read_file :
        (header : Option Bytes) (h body : Bytes) (e : Entry) (contents : Bytes)
        → CanSend header contents
        → length h ≡ header_size
        → Data compress body e contents
        → page_of (read_file pieces header (h ++ body) (raw compress e)) ≡ contents
    unfolding page_of read_file
    page_of-read_file header h body e contents can eh (empty c m d p z) = rw m (sym c)
    page_of-read_file header h body e contents can eh (plain k a d m z p) = rw m (
        received-send_all _ _
        ∙ rw z (
            take-At contents e.data_offset (h ++ body)
              (At-from compress contents h k e.data_offset body eh d a)))
    page_of-read_file header h body e contents can eh (packed k a d m z p) =
        rw m (by_encoding (sends_uncompressed header) can)
      where
        stored : take e.compressed_size (drop e.data_offset (h ++ body)) ≡ compress contents
        stored = rw p (
            take-At (compress contents) e.data_offset (h ++ body)
              (At-from compress (compress contents) h k e.data_offset body eh d a))

        by_encoding :
            (b : Bool)
            → (b ≡ false) ⊎ (pieces (compress contents) ≡ contents ∷ [])
            → page_of (
                if b
                then record {
                  deflate = false;
                  chunks =
                      send_pieces (pieces (take e.compressed_size (drop e.data_offset (h ++ body))))
                      ++ [] ∷ [] ∷ [];
                }
                else record {
                  deflate = true;
                  chunks =
                      send_all (take e.compressed_size (drop e.data_offset (h ++ body))) ++ [] ∷ [];
                })
              ≡ contents
        by_encoding true (inl e) = absurd (not_both e)
          where
            not_both : true ≢ false
            not_both q = cc
        by_encoding true (inr one) =
            ap (λ s. received (send_pieces (pieces s) ++ [] ∷ [] ∷ [])) stored
            ∙ ap (λ l. received (send_pieces l ++ [] ∷ [] ∷ [])) one
            ∙ ap received (append_assoc (send_all contents) [] ([] ∷ [] ∷ []))
            ∙ received-send_all contents ([] ∷ [] ∷ [])
        by_encoding false o =
            ap (λ s. joined (pieces s)) (received-send_all _ _ ∙ stored) ∙ inverse contents

    -- What a plain GET request has to come to, by what the image has under its path: the file, or the
    -- registered handlers.
    unfoldable pub Answers : {W : Type 0} → Option Bytes → Option (Reply W) → W → W × ℕ → Type 0
    Answers (some contents) reply w ran =
        (r : Response) × (reply ≡ some (file w r)) × (page_of r ≡ contents)
    Answers none reply w ran = reply ≡ some (after_handler ran)

    serve_found-Found :
        {W : Type 0} (header : Option Bytes) (image path : Bytes) (files : List File) (w : W)
        (ran : W × ℕ) (result : Option RawEntry)
        → ((c : Bytes) → lookup path files ≡ some c → CanSend header c)
        → Found compress image path files result
        → Answers (lookup path files) (some (serve_found pieces header image ran w result)) w ran
    unfolding Answers serve_found
    serve_found-Found header image path files w ran result can (missing r l) = rw (l, r) refl
    serve_found-Found header image path files w ran result can (present e c h body r l eh i d) =
        rw (l, r, i) (_, refl, page_of-read_file header h body e c (can c l) eh d)

    -- GET for a plain path from the image that fs_gen wrote: the client receives the contents of the
    -- first file of that path, if it can be sent as the client asks; a path that is not in the image is
    -- left to the registered handlers.
    pub http_file_handler-fs_gen :
        {W : Type 0} (header : Option Bytes) (files : List File) (image path : Bytes)
        (handlers : Handlers W) (w : W)
        → All (λ f. Free 0 f.pathname) files
        → fs_gen compress files ≡ some image
        → IsPlain path
        → ((c : Bytes) → lookup path files ≡ some c → CanSend header c)
        → Answers
            (lookup path files)
            (http_file_handler pieces header image handlers (b'/' ∷ path) w)
            w
            (gm_web_handler_run handlers
              (b'/' ∷ path)
              (record { failed = false; path = path; params = []; uri = b'/' ∷ path })
              WebMethod.get
              w)
    unfolding http_file_handler search_image
    http_file_handler-fs_gen header files image path handlers w free made is_plain can =
        rw (gm_uri_parse-plain path is_plain, http_file_handler)
          (serve_found-Found header image path files w _ _ can
            (fs_gen-Found compress files image path free made))

-- A compressed file that is sent uncompressed in more than one piece is cut off: the client receives
-- the first piece only, since an empty chunk follows each.
pub read_file_cut_off :
    (pieces : Bytes → List Bytes) (header : Option Bytes) (fs first second : Bytes)
    (rest : List Bytes) (e : RawEntry)
    → e.method ≡ 2
    → sends_uncompressed header ≡ true
    → pieces (take e.compressed_size (drop e.data_offset fs)) ≡ first ∷ second ∷ rest
    → received (read_file pieces header fs e).chunks ≡ first
unfolding read_file send_pieces
read_file_cut_off pieces header fs first second rest e zlib asks several =
    rw (zlib, asks, several)
      (ap received (append_assoc (send_all first) (send_pieces (second ∷ rest)) ([] ∷ [] ∷ []))
        ∙ received-send_all first _)
