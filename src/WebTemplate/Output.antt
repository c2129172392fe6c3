-- ===== src/WebTemplate/Output.antt =====
-- What the calls have written, in the buffer or already sent.
use rigcontrol.Common.{
  All, All-append, ℕ, ◌≤◌, ◌<◌, ◌≡◌, refl, sym, ap, ◌∙◌, arith, Bool, true, false, List, [], ◌∷◌,
  ◌++◌, append_assoc, append-nil, Bytes, codes, length, length-append, ltb, leb, if◌then◌else◌,
  Bool-cases, inl, inr,
}
use rigcontrol.WebTemplate.{
  Tag, Writer, buffer_size, flush, emit, finish_current_tag, is_open, finish_tags,
}

abbrev pub concat : List Bytes → Bytes
concat [] = []
concat (b ∷ bs) = b ++ concat bs

pub concat-append : (xs ys : List Bytes) → concat (xs ++ ys) ≡ concat xs ++ concat ys
concat-append [] ys = refl
concat-append (x ∷ xs) ys = rw (concat-append xs ys) (sym (append_assoc x (concat xs) (concat ys)))

-- What the client gets of chunks: those in front of the first empty one, which ends the response.
unfoldable pub delivered : List Bytes → Bytes
delivered [] = []
delivered ([] ∷ chunks) = []
delivered ((c ∷ b) ∷ chunks) = (c ∷ b) ++ delivered chunks

abbrev pub IsChunk : Bytes → Type 0
IsChunk b = 0 < length b

-- No chunk before the last one ends the response.
pub delivered-last :
    (bs : List Bytes) (b : Bytes) → All IsChunk bs → delivered (bs ++ b ∷ []) ≡ concat bs ++ b
unfolding delivered
delivered-last [] [] h = refl
delivered-last [] (c ∷ b) h = append-nil (c ∷ b)
delivered-last ([] ∷ bs) b (h, hs) = absurd (omega (arith, h))
delivered-last ((c ∷ a) ∷ bs) b (h, hs) =
    ap (◌++◌ (c ∷ a)) (delivered-last bs b hs) ∙ sym (append_assoc (c ∷ a) (concat bs) b)

-- All that has been written.
abbrev pub written : Writer → Bytes
written w = concat w.sent ++ w.buffer

-- Between two calls half of the buffer is free, no chunk of no size was sent, and nothing has gone
-- wrong.
pub record IsValid (w : Writer) : Type 0 where
  pub half : length w.buffer ≤ 1024
  pub no_failures : w.failures ≡ 0
  pub chunks : All IsChunk w.sent

pub written-flush : (w : Writer) → written (flush w) ≡ written w
written-flush w =
    append-nil (concat (w.sent ++ w.buffer ∷ []))
    ∙ (concat-append w.sent (w.buffer ∷ []) ∙ ap (◌++◌ (concat w.sent)) (append-nil w.buffer))

-- What a call of `emit` does to a writer.
pub record Emits (text : Bytes) (w w' : Writer) : Type 0 where
  pub tags : w'.tags ≡ w.tags
  pub output : written w' ≡ written w ++ text
  pub finished : w'.finished ≡ w.finished
  pub valid : IsValid w'

pub emit-Emits :
    (text : Bytes) (w : Writer) → IsValid w → length text < 1024 → Emits text w (emit text w)
unfolding emit
emit-Emits text w v h =
    let w' = record w { buffer = w.buffer ++ text } in
    let fits : leb buffer_size (length (w.buffer ++ text)) ≡ false =
      ground (arith, length-append w.buffer text, v.half) in
    let whole : written w' ≡ written w ++ text = sym (append_assoc (concat w.sent) w.buffer text) in
    elim (Bool-cases (ltb 1024 (length (w.buffer ++ text)))) [
      | inl e ↦
          rw (fits, e)
            (record {
              tags = refl;
              output = written-flush w' ∙ whole;
              finished = refl;
              valid = record {
                half = omega arith;
                no_failures = v.no_failures;
                chunks =
                    All-append IsChunk w.sent (w'.buffer ∷ []) v.chunks (ground (arith, e), tt);
              };
            })
      | inr e ↦
          rw (fits, e)
            (record {
              tags = refl;
              output = whole;
              finished = refl;
              valid = record {
                half = ground arith;
                no_failures = v.no_failures;
                chunks = v.chunks;
              };
            })
    ]

-- What the next call writes first, to close the tag before it, and the tags that this leaves.
abbrev pub pending : List Tag → Bytes
pending [] = []
pending (t ∷ ts) = if t.opened then codes ">" else []

abbrev pub settled_tags : List Tag → List Tag
settled_tags [] = []
settled_tags (t ∷ ts) =
    if t.opened then if t.nesting then record t { opened = false } ∷ ts else ts else t ∷ ts

-- A writer that has written `out`, once its last tag is closed, inside the tags `base`.
pub record Settled (base : List Tag) (out : Bytes) (f : ℕ) (w : Writer) : Type 0 where
  pub valid : IsValid w
  pub tags : settled_tags w.tags ≡ base
  pub output : written w ++ pending w.tags ≡ out
  pub finished : w.finished ≡ f
  pub closed : is_open base ≡ false

-- A writer whose tag `name`, inside `base`, still takes attributes.
pub record Opened (name : Bytes) (nesting : Bool) (base : List Tag) (out : Bytes) (f : ℕ)
    (w : Writer) : Type 0 where
  pub valid : IsValid w
  pub tags : w.tags ≡ record { name = name; opened = true; nesting = nesting } ∷ base
  pub output : written w ≡ out
  pub finished : w.finished ≡ f
  pub closed : is_open base ≡ false

-- What `finish_current_tag` does to a writer with these tags.
pub record Finishes (ts : List Tag) (w w' : Writer) : Type 0 where
  pub valid : IsValid w'
  pub tags : w'.tags ≡ settled_tags ts
  pub output : written w' ≡ written w ++ pending ts
  pub finished : w'.finished ≡ w.finished

module _ (name : Bytes) (ts : List Tag) (w : Writer) (v : IsValid w) where
  abbrev top : Bool → Bool → List Tag
  top opened nesting = record { name = name; opened = opened; nesting = nesting } ∷ ts

  top-Finishes :
      (opened nesting : Bool)
      → w.tags ≡ top opened nesting
      → Finishes (top opened nesting) w (finish_tags (top opened nesting) w)
  top-Finishes false nesting e = record {
    valid = v;
    tags = e;
    output = sym (append-nil (written w));
    finished = refl;
  }
  top-Finishes true true e =
      let m = emit-Emits (codes ">") w v (omega arith) in
      record {
        valid = record {
          half = m.valid.half;
          no_failures = m.valid.no_failures;
          chunks = m.valid.chunks;
        };
        tags = refl;
        output = m.output;
        finished = m.finished;
      }
  top-Finishes true false e =
      let m = emit-Emits (codes ">") w v (omega arith) in
      record {
        valid = record {
          half = m.valid.half;
          no_failures = m.valid.no_failures;
          chunks = m.valid.chunks;
        };
        tags = refl;
        output = m.output;
        finished = m.finished;
      }

finish_tags-Finishes :
    (ts : List Tag) (w : Writer) → w.tags ≡ ts → IsValid w → Finishes ts w (finish_tags ts w)
finish_tags-Finishes [] w e v = record {
  valid = v;
  tags = e;
  output = sym (append-nil (written w));
  finished = refl;
}
finish_tags-Finishes (t ∷ ts) w e v = top-Finishes t.name ts w v t.opened t.nesting e

pub finish_current_tag-Finishes :
    (w : Writer) → IsValid w → Finishes w.tags w (finish_current_tag w)
unfolding finish_current_tag
finish_current_tag-Finishes w v = finish_tags-Finishes w.tags w refl v
