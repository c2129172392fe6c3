-- ===== src/WebTemplate.antt =====
-- components/generic_main/web_template.c: HTML is written by calls that open tags, add attributes
-- and text, and end tags; a tag is closed with `>` only when the next call comes.
pub mod Output
pub mod Calls
pub mod Document
pub mod Tags
mod Tests
use rigcontrol.Common.{
  ℕ, ◌+◌, Bool, true, false, List, [], ◌∷◌, ◌++◌, Bytes, codes, length, take, ltb, leb,
  if◌then◌else◌,
}

-- `tag_t`; the `parent` pointers make a list, whose end is `root`.
pub record Tag : Type 0 where
  pub name : Bytes
  pub opened : Bool
  pub nesting : Bool

-- The statics: `current` is the head of `tags`, or `root` where there is none. `buffer` holds
-- `buf_index` bytes, `sent` is what `gm_web_send_to_client` has been given, call by call, where an
-- empty piece is the platform's chunk of no size, which ends the response, `finished` counts the calls
-- of `gm_web_finish`, which sends such a chunk too, and `failures` counts the calls of `fail`.
pub record Writer : Type 0 where
  pub tags : List Tag
  pub buffer : Bytes
  pub sent : List Bytes
  pub finished : ℕ
  pub failures : ℕ

abbrev pub buffer_size : ℕ
buffer_size = 2048

abbrev pub fail : Writer → Writer
fail w = record w { failures = w.failures + 1 }

abbrev pub flush : Writer → Writer
flush w = record w { sent = w.sent ++ w.buffer ∷ []; buffer = [] }

-- `emit_va` with the text that `vsnprintf` makes. Its size is added to `buf_index` whether or not
-- it fits, so `buffer` here holds all of it, and what is behind `buffer_size` does not exist.
unfoldable pub emit : Bytes → Writer → Writer
emit text w =
    let w' = record w { buffer = w.buffer ++ text } in
    let size = length w'.buffer in
    let checked = if leb buffer_size size then fail w' else w' in
    if ltb 1024 size then flush checked else checked

-- `finish_current_tag`, on the list of tags; `root` is never open.
abbrev pub finish_tags : List Tag → Writer → Writer
finish_tags [] w = w
finish_tags (t ∷ ts) w =
    if t.opened
    then if t.nesting
      then record (emit (codes ">") w) { tags = record t { opened = false } ∷ ts }
      else record (emit (codes ">") w) { tags = ts }
    else w

unfoldable pub finish_current_tag : Writer → Writer
finish_current_tag w = finish_tags w.tags w

unfoldable pub html_tag : Bytes → Bool → Writer → Writer
html_tag name nesting w =
    let w' = emit (b'<' ∷ name) (finish_current_tag w) in
    record w' { tags = record { name = name; opened = true; nesting = nesting } ∷ w'.tags }

abbrev pub is_open : List Tag → Bool
is_open [] = false
is_open (t ∷ ts) = t.opened

unfoldable pub html_attr : Bytes → Bytes → Writer → Writer
html_attr name value w =
    let w' = if is_open w.tags then w else fail w in
    emit (codes "\"") (emit value (emit (b' ' ∷ (name ++ codes "=\"")) w'))

unfoldable pub html_text : Bytes → Writer → Writer
html_text text w = emit text (finish_current_tag w)

unfoldable pub html_doctype : Writer → Writer
unfolding html_text
html_doctype w = html_text (codes "<!DOCTYPE HTML>\n") w

-- `current == &root` after the tag is freed: the page is flushed and finished. Where the end tag has
-- just filled the buffer, so that `emit` flushed it, this flush sends a chunk of no size.
abbrev pub leave : List Tag → Writer → Writer
leave [] w = let w' = flush w in record w' { finished = w'.finished + 1 }
leave (t ∷ ts) w = w

abbrev pub end_tags : List Tag → Writer → Writer
end_tags [] w = fail w
end_tags (t ∷ ts) w =
    if t.nesting
    then leave ts (record (emit (codes "</" ++ (t.name ++ codes ">")) w) { tags = ts })
    else fail w

unfoldable pub html_end : Writer → Writer
html_end w = let w' = finish_current_tag w in end_tags w'.tags w'
