-- ===== src/WebTemplate/Calls.antt =====
-- What each call of the template language does to the page, whatever tag stands open before it.
use rigcontrol.Common.{
  ℕ, ◌<◌, ◌≡◌, refl, ap, ap₂, ◌∙◌, arith, Bool, true, false, List, [], ◌∷◌, ◌++◌, append_assoc,
  append-nil, Bytes, codes, length, length-append,
}
use rigcontrol.WebTemplate.{
  Tag, Writer, emit, finish_current_tag, html_tag, is_open, html_attr, html_text, leave, end_tags,
  html_end,
}
use rigcontrol.WebTemplate.Output.{
  written, IsValid, emit-Emits, pending, settled_tags, Settled, Opened, finish_current_tag-Finishes,
}

-- `finish_current_tag` makes what is settled so in fact.
pub record Closed (base : List Tag) (out : Bytes) (f : ℕ) (w : Writer) : Type 0 where
  pub valid : IsValid w
  pub tags : w.tags ≡ base
  pub output : written w ≡ out
  pub finished : w.finished ≡ f

finish-Closed :
    {base : List Tag} {out : Bytes} {f : ℕ} {w : Writer}
    → Settled base out f w
    → Closed base out f (finish_current_tag w)
finish-Closed {w = w} s =
    let d = finish_current_tag-Finishes w s.valid in
    record {
      valid = d.valid;
      tags = d.tags ∙ s.tags;
      output = d.output ∙ s.output;
      finished = d.finished ∙ s.finished;
    }

settled_of_closed :
    (base : List Tag) → is_open base ≡ false → (settled_tags base ≡ base) × (pending base ≡ [])
settled_of_closed [] h = (refl, refl)
settled_of_closed (t ∷ ts) h = rw h (refl, refl)

Closed-Settled :
    {base : List Tag} {out : Bytes} {f : ℕ} {w : Writer}
    → is_open base ≡ false
    → Closed base out f w
    → Settled base out f w
Closed-Settled {base} h c =
    let (s, p) = settled_of_closed base h in
    record {
      valid = c.valid;
      tags = ap settled_tags c.tags ∙ s;
      output = ap₂ ◌++◌ c.output (ap pending c.tags ∙ p) ∙ append-nil _;
      finished = c.finished;
      closed = h;
    }

emit-Closed :
    {base : List Tag} {out : Bytes} {f : ℕ} {w : Writer} (text : Bytes)
    → length text < 1024
    → Closed base out f w
    → Closed base (out ++ text) f (emit text w)
emit-Closed {w = w} text h c =
    let m = emit-Emits text w c.valid h in
    record {
      valid = m.valid;
      tags = m.tags ∙ c.tags;
      output = m.output ∙ ap (λ o. o ++ text) c.output;
      finished = m.finished ∙ c.finished;
    }

pub html_text-Settled :
    {base : List Tag} {out : Bytes} {f : ℕ} {w : Writer} (text : Bytes)
    → length text < 1024
    → Settled base out f w
    → Settled base (out ++ text) f (html_text text w)
unfolding html_text
html_text-Settled text h s = Closed-Settled s.closed (emit-Closed text h (finish-Closed s))

pub html_tag-Opened :
    {base : List Tag} {out : Bytes} {f : ℕ} {w : Writer} (name : Bytes) (nesting : Bool)
    → length name < 1000
    → Settled base out f w
    → Opened name nesting base (out ++ b'<' ∷ name) f (html_tag name nesting w)
unfolding html_tag
html_tag-Opened name nesting h s =
    let c = emit-Closed (b'<' ∷ name) (omega arith) (finish-Closed s) in
    record {
      valid = record {
        half = c.valid.half;
        no_failures = c.valid.no_failures;
        chunks = c.valid.chunks;
      };
      tags = ap (◌∷◌ (record { name = name; opened = true; nesting = nesting })) c.tags;
      output = c.output;
      finished = c.finished;
      closed = s.closed;
    }

-- An attribute as it is to stand in the page.
abbrev pub attribute : Bytes × Bytes → Bytes
attribute (name, value) = (b' ' ∷ (name ++ codes "=\"")) ++ (value ++ codes "\"")

pub html_attr-Opened :
    {tag : Bytes} {nesting : Bool} {base : List Tag} {out : Bytes} {f : ℕ} {w : Writer}
    (name value : Bytes)
    → length name < 1000
    → length value < 1024
    → Opened tag nesting base out f w
    → Opened tag nesting base (out ++ attribute (name, value)) f (html_attr name value w)
unfolding html_attr
html_attr-Opened {tag} {nesting} {base} {out} {f} {w} name value hn hv o =
    let first = b' ' ∷ (name ++ codes "=\"") in
    let quote = codes "\"" in
    let open_tag : is_open w.tags ≡ true = ap is_open o.tags in
    let c : Closed w.tags out f w = record {
      valid = o.valid;
      tags = refl;
      output = o.output;
      finished = o.finished;
    } in
    let c' = emit-Closed quote (omega arith) (
      emit-Closed value hv
        (emit-Closed first (omega (arith, length-append name (codes "=\""))) c)) in
    rw open_tag (record {
      valid = c'.valid;
      tags = c'.tags ∙ o.tags;
      output =
          c'.output
          ∙ (append_assoc (out ++ first) value quote ∙ append_assoc out first (value ++ quote));
      finished = c'.finished;
      closed = o.closed;
    })

-- An open tag that the next call closes.
pub Opened-Settled :
    {tag : Bytes} {base : List Tag} {out : Bytes} {f : ℕ} {w : Writer}
    → Opened tag true base out f w
    → Settled (record { name = tag; opened = false; nesting = true } ∷ base) (out ++ codes ">") f w
Opened-Settled o = record {
  valid = o.valid;
  tags = ap settled_tags o.tags;
  output = ap₂ ◌++◌ o.output (ap pending o.tags);
  finished = o.finished;
  closed = refl;
}

pub Opened-Settled_void :
    {tag : Bytes} {base : List Tag} {out : Bytes} {f : ℕ} {w : Writer}
    → Opened tag false base out f w
    → Settled base (out ++ codes ">") f w
Opened-Settled_void o = record {
  valid = o.valid;
  tags = ap settled_tags o.tags;
  output = ap₂ ◌++◌ o.output (ap pending o.tags);
  finished = o.finished;
  closed = o.closed;
}

abbrev pub end_tag : Bytes → Bytes
end_tag name = codes "</" ++ (name ++ codes ">")

pub html_end-Closed :
    {name : Bytes} {base : List Tag} {out : Bytes} {f : ℕ} {w : Writer}
    → length name < 1000
    → Settled (record { name = name; opened = false; nesting = true } ∷ base) out f w
    → (w' : Writer) × (html_end w ≡ leave base w') × Closed base (out ++ end_tag name) f w'
unfolding html_end
html_end-Closed {name} {base} {out} {f} {w} h s =
    let c = finish-Closed s in
    let e = emit-Closed (end_tag name) (omega (arith, length-append name (codes ">"))) c in
    (
      record (emit (end_tag name) (finish_current_tag w)) { tags = base },
      ap (λ ts. end_tags ts (finish_current_tag w)) c.tags,
      record {
        valid = record {
          half = e.valid.half;
          no_failures = e.valid.no_failures;
          chunks = e.valid.chunks;
        };
        tags = refl;
        output = e.output;
        finished = e.finished;
      },
    )

pub html_end-Settled :
    {name : Bytes} {outer : Tag} {base : List Tag} {out : Bytes} {f : ℕ} {w : Writer}
    → length name < 1000
    → outer.opened ≡ false
    → Settled (record { name = name; opened = false; nesting = true } ∷ (outer ∷ base)) out f w
    → Settled (outer ∷ base) (out ++ end_tag name) f (html_end w)
html_end-Settled h o s = let (w', e, c) = html_end-Closed h s in rw e (Closed-Settled o c)
