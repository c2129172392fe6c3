-- ===== src/Filesystem/Serve.antt =====
-- components/generic_main/compressed_fs.c: GET requests are answered from the image in flash, and by
-- the registered handlers where it has no such file.
pub mod Page
use rigcontrol.Common.{
  ℕ, zero, suc, ◌+◌, Bool, true, false, ◌||◌, Option, none, some, List, [], ◌∷◌, ◌++◌, Bytes, codes,
  length, take, drop, get_or, ◌==◌, if◌then◌else◌,
}
use rigcontrol.Uri.{UriParse, gm_uri_parse}
use rigcontrol.Filesystem.Read.{RawEntry, find_entry, number_of_files, table_offset}
use rigcontrol.Web.{WebMethod, Handlers, gm_web_handler_run}

-- A response: whether `Content-Encoding: deflate` was set, and the chunks in the order they were sent.
pub record Response : Type 0 where
  pub deflate : Bool
  pub chunks : List Bytes

abbrev pub maximum_chunk_size : ℕ
maximum_chunk_size = 4096

-- `send_chunks`: the loop runs on fuel, and the empty chunk follows it.
unfoldable pub send_chunks : ℕ → Bytes → List Bytes
send_chunks zero bytes = [] ∷ []
send_chunks (suc fuel) [] = [] ∷ []
send_chunks (suc fuel) (c ∷ cs) =
    take maximum_chunk_size (c ∷ cs) ∷ send_chunks fuel (drop maximum_chunk_size (c ∷ cs))

abbrev pub send_all : Bytes → List Bytes
unfolding send_chunks
send_all bytes = send_chunks (length bytes) bytes

-- The callback is called for one piece after the other.
unfoldable pub send_pieces : List Bytes → List Bytes
unfolding send_all
send_pieces [] = []
send_pieces (piece ∷ pieces) = send_all piece ++ send_pieces pieces

-- `strstr`: what stands behind the first occurrence.
abbrev pub prefix_rest : Bytes → Bytes → Option Bytes
prefix_rest [] s = some s
prefix_rest (p ∷ ps) [] = none
prefix_rest (p ∷ ps) (c ∷ s) = let rest = prefix_rest ps s in if p == c then rest else none

unfoldable pub strstr_rest : Bytes → Bytes → Option Bytes
strstr_rest word [] = prefix_rest word []
strstr_rest word (c ∷ s) =
    let later = strstr_rest word s in
    elim (prefix_rest word (c ∷ s)) [ some rest ↦ some rest | none ↦ later ]

-- Whether the file is sent uncompressed: only if the header names deflate with some other character
-- behind it. `header` is the value of Accept-Encoding, where it is there and fits the buffer.
unfoldable pub sends_uncompressed : Option Bytes → Bool
unfolding strstr_rest
sends_uncompressed none = false
sends_uncompressed (some header) = elim (strstr_rest (codes "deflate") header) [
  | none ↦ false
  | some rest ↦
      let c = get_or rest 0 0 in
      if c == b',' || (c == b';' || (c == 0 || (c == 13 || c == 10))) then false else true
]

-- How a GET request is answered: an error, a file, a handler, or 404 after a handler failed or
-- was not found.
pub data Reply (W : Type 0) : Type 0 where
  invalid : W → Reply W
  file : W → Response → Reply W
  handled not_found : W → Reply W

abbrev pub after_handler : {W : Type 0} → W × ℕ → Reply W
after_handler (w, status) = if status == 0 then handled w else not_found w

-- `pieces` is what `tinfl_decompress_mem_to_callback` hands to the callback, call by call.
module _ (pieces : Bytes → List Bytes) where
  unfoldable pub read_file : Option Bytes → Bytes → RawEntry → Response
  unfolding send_pieces sends_uncompressed send_all
  read_file header fs e =
      let stored = take e.compressed_size (drop e.data_offset fs) in
      if e.method == 1
      then record { deflate = false; chunks = [] ∷ [] }
      else if e.method == 0
      then record {
        deflate = false;
        chunks = send_all (take e.size (drop e.data_offset fs)) ++ [] ∷ [];
      }
      else if e.method == 2
      then (if sends_uncompressed header
          then record { deflate = false; chunks = send_pieces (pieces stored) ++ [] ∷ [] ∷ [] }
          else record { deflate = true; chunks = send_all stored ++ [] ∷ [] })
      else record { deflate = false; chunks = [] }

  module _ {W : Type 0} where
    unfoldable pub serve_found : Option Bytes → Bytes → (W × ℕ) → W → Option RawEntry → Reply W
    unfolding read_file
    serve_found header fs ran w none = after_handler ran
    serve_found header fs ran w (some e) = file w (read_file header fs e)

    unfoldable pub http_file_handler :
        Option Bytes → Bytes → Handlers W → Bytes → W → Option (Reply W)
    unfolding serve_found gm_uri_parse find_entry number_of_files table_offset gm_web_handler_run
    http_file_handler header fs handlers request_uri w = elim (gm_uri_parse request_uri) [
      | none ↦ none
      | some uri ↦ some (
          if uri.failed
          then invalid w
          else serve_found header fs (gm_web_handler_run handlers uri.uri uri WebMethod.get w) w
              (find_entry fs (number_of_files fs) (table_offset fs) uri.path))
    ]
