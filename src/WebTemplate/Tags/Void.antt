-- ===== src/WebTemplate/Tags/Void.antt =====
-- The macros agree with HTML about which elements are void.
use rigcontrol.Common.{
  ◌≡◌, ◌∙◌, refl, sym, ap, ap₂, leb, ltb, length, ◌++◌, inl, inr, Bool, true, false, not, ◌&&◌,
  Option, none, some, List, [], ◌∷◌, Bytes, codes, str_eq, str_eq_iff, if◌then◌else◌, Bool-cases,
}
use rigcontrol.WebTemplate.{Tag, Writer, buffer_size, emit, finish_current_tag, html_tag}
use rigcontrol.WebTemplate.Tags.{TagMacro, tags, find_macro, call_macro}

-- The void elements of HTML, keygen of HTML 5.0 among them.
abbrev pub void_elements : List Bytes
void_elements =
    codes "area"
    ∷ codes "base"
    ∷ codes "br"
    ∷ codes "col"
    ∷ codes "embed"
    ∷ codes "hr"
    ∷ codes "img"
    ∷ codes "input"
    ∷ codes "keygen"
    ∷ codes "link"
    ∷ codes "meta"
    ∷ codes "param"
    ∷ codes "source"
    ∷ codes "track"
    ∷ codes "wbr"
    ∷ []

unfoldable pub is_among : Bytes → List Bytes → Bool
unfolding str_eq
is_among name [] = false
is_among name (n ∷ ns) = let rest = is_among name ns in if str_eq n name then true else rest

abbrev pub is_void : Bytes → Bool
unfolding is_among
is_void name = is_among name void_elements

-- The macro opens the tag of its own name, which is void as in HTML.
agrees : TagMacro → Bool
unfolding str_eq is_void
agrees m =
    str_eq m.tag_name m.macro_name && (if is_void m.tag_name then not m.nesting else m.nesting)

all_of : (TagMacro → Bool) → List TagMacro → Bool
all_of P [] = true
all_of P (m ∷ ms) = P m && all_of P ms

tags_agree : all_of agrees tags ≡ true
unfolding all_of agrees tags is_void is_among str_eq
tags_agree = refl

both : (a b : Bool) → a && b ≡ true → (a ≡ true) × (b ≡ true)
both true b e = (refl, e)
both false b e = cc

none_some : (m : TagMacro) → Path (Option TagMacro) none (some m) → ⊥
none_some m e = cc

same_macro : (n m : TagMacro) → Path (Option TagMacro) (some n) (some m) → n ≡ m
same_macro n m e = cc

find_macro-all_of :
    (P : TagMacro → Bool) (name : Bytes) (ms : List TagMacro) (m : TagMacro)
    → all_of P ms ≡ true
    → find_macro name ms ≡ some m
    → (P m ≡ true) × (m.macro_name ≡ name)
unfolding find_macro all_of
find_macro-all_of P name [] m all found = absurd (none_some m found)
find_macro-all_of P name (n ∷ ms) m all found =
    let (holds, later) = both (P n) (all_of P ms) all in
    elim (Bool-cases (str_eq n.macro_name name)) [
      | inl e ↦
          let same : n ≡ m = same_macro n m (rw (e, find_macro) at found) in
          (
            sym (ap P same) ∙ holds,
            sym (ap (λ k. k.macro_name) same) ∙ (str_eq_iff n.macro_name name).0 e,
          )
      | inr e ↦ find_macro-all_of P name ms m later (rw (e, find_macro) at found)
    ]

-- The element that stands open behind a start tag, if it is not void.
abbrev pub opened_by : Bytes → List Tag → List Tag
unfolding is_void
opened_by name ts =
    if is_void name then ts else (record { name = name; opened = false; nesting = true }) ∷ ts

emit-tags : (text : Bytes) (w : Writer) → (emit text w).tags ≡ w.tags
unfolding emit
emit-tags text w = elim (Bool-cases (leb buffer_size (length (w.buffer ++ text)))) [
  | inl e ↦ elim (Bool-cases (ltb 1024 (length (w.buffer ++ text)))) [
    | inl k ↦ rw (e, k, emit) refl
    | inr k ↦ rw (e, k, emit) refl
  ]
  | inr e ↦ elim (Bool-cases (ltb 1024 (length (w.buffer ++ text)))) [
    | inl k ↦ rw (e, k, emit) refl
    | inr k ↦ rw (e, k, emit) refl
  ]
]

finish-html_tag :
    (name : Bytes) (nesting : Bool) (w : Writer)
    → (finish_current_tag (html_tag name nesting w)).tags ≡ (
        if nesting
        then (record { name = name; opened = false; nesting = true }) ∷ (finish_current_tag w).tags
        else (finish_current_tag w).tags)
unfolding finish_current_tag html_tag emit
finish-html_tag name true w =
    ap (◌∷◌ (record { name = name; opened = false; nesting = true }))
      (emit-tags (b'<' ∷ name) (finish_current_tag w))
finish-html_tag name false w = emit-tags (b'<' ∷ name) (finish_current_tag w)

agreed : (void nesting : Bool) → (if void then not nesting else nesting) ≡ true → nesting ≡ not void
agreed true false e = refl
agreed true true e = cc
agreed false nesting e = e

-- Every macro of a tag opens the tag of its own name, and behind its start tag an element of that name
-- stands open exactly if HTML does not have it void.
pub finish-call_macro :
    (name : Bytes) (m : TagMacro) (w : Writer)
    → find_macro name tags ≡ some m
    → (finish_current_tag (call_macro m w)).tags ≡ opened_by name ((finish_current_tag w).tags)
unfolding call_macro opened_by agrees
finish-call_macro name m w found =
    let (agree, same) = find_macro-all_of agrees name tags m tags_agree found in
    let (own, void) = both (str_eq m.tag_name m.macro_name) _ agree in
    let tag : m.tag_name ≡ name = (str_eq_iff m.tag_name m.macro_name).0 own ∙ same in
    let nests : m.nesting ≡ not (is_void name) =
      agreed (is_void m.tag_name) m.nesting void ∙ ap (λ n. not (is_void n)) tag in
    ap₂ (λ n b. (finish_current_tag (html_tag n b w)).tags) tag nests
    ∙ finish-html_tag name (not (is_void name)) w
    ∙ by_void (is_void name)
  where
    by_void :
        (b : Bool)
        → (if not b
            then (record { name = name; opened = false; nesting = true })
              ∷ (finish_current_tag w).tags
            else (finish_current_tag w).tags)
          ≡ (if b
              then (finish_current_tag w).tags
              else (record { name = name; opened = false; nesting = true })
                ∷ (finish_current_tag w).tags)
    by_void true = refl
    by_void false = refl
