-- ===== src/PatternString/Expand.antt =====
-- `gm_pattern_string` expands templates.
use rigcontrol.Common.{
  ℕ, zero, suc, ◌+◌, ◌-◌, ◌^◌, ◌≤◌, ◌<◌, ◌≡◌, refl, ap, ◌∙◌, arith, false, some, List, [], ◌∷◌,
  ◌++◌, append_assoc, append-nil, Bytes, Free, All, length, length-append, ltb, index, index-append,
  index-Free,
}
use rigcontrol.PatternString.{
  Coroutine, Outcome, done, sub_size, is_empty, has_open, replaced, replace, substitute,
  pattern_loop, gm_pattern_string,
}

-- A template: pairs of a text and a name to replace, and a final text.
abbrev pub Template : Type 0
Template = List (Bytes × Bytes)

-- The string that is written for it.
abbrev pub source : Template → Bytes → Bytes
source [] final = final
source ((text, name) ∷ ts) final = text ++ b'{' ∷ (name ++ b'}' ∷ source ts final)

-- What it stands for.
abbrev pub expansion : (Bytes → Bytes) → Template → Bytes → Bytes
expansion values [] final = final
expansion values ((text, name) ∷ ts) final = text ++ (values name ++ expansion values ts final)

-- Texts have no `{`, and names have neither brace, are not empty, and have at most `longest` bytes.
pub record IsSegment (longest : ℕ) (segment : Bytes × Bytes) : Type 0 where
  pub text_free : Free b'{' segment.0
  pub no_open : Free b'{' segment.1
  pub no_close : Free b'}' segment.1
  pub nonempty : is_empty segment.1 ≡ false
  pub short : length segment.1 ≤ longest

-- The coroutine leaves the value of a name if it has the room for it.
abbrev pub Gives : Coroutine → (Bytes → Bytes) → Bytes → Type 0
Gives coroutine values name =
    (room : ℕ) → length (values name) < room → coroutine name room ≡ some (values name)

-- It does so for the names of a template.
abbrev pub GivesAll : Coroutine → (Bytes → Bytes) → Template → Type 0
GivesAll coroutine values ts =
    All (λ (segment : Bytes × Bytes). Gives coroutine values segment.1) ts

has_open-Free : (name : Bytes) → Free b'{' name → has_open name ≡ false
has_open-Free name h = rw (index-Free b'{' name h, has_open) refl

-- A round of the loop at a bracketed name, whether or not there is text before it.
pattern_loop-name :
    (coroutine : Coroutine) (fuel size : ℕ) (start out text name var behind : Bytes)
    → index b'{' start ≡ some (text, var)
    → index b'}' var ≡ some (name, behind)
    → pattern_loop coroutine (suc fuel) start out size
      ≡ substitute coroutine (pattern_loop coroutine fuel behind) out size text name
unfolding pattern_loop index
pattern_loop-name coroutine fuel size [] out text name var behind e f = cc
pattern_loop-name coroutine fuel size (c ∷ cs) out text name var behind e f =
    rw (e, f, pattern_loop) refl

module _ (coroutine : Coroutine) (values : Bytes → Bytes) (longest : ℕ) where
  replace-value :
      (text name : Bytes) (size : ℕ)
      → IsSegment longest (text, name)
      → Gives coroutine values name
      → length text + length (values name) + longest < size
      → size < 2 ^ 32
      → replace coroutine size text name ≡ replaced (values name)
  replace-value text name size s g h k =
      let room : sub_size size (length text) ≡ size - length text = omega arith in
      let lead : ltb (sub_size size 1) (length text) ≡ false = ground arith in
      let fits : ltb (sub_size (size - length text) 1) (length name) ≡ false =
        ground (arith, s.short) in
      let given = g (size - length text) (omega arith) in rw (lead, room, fits, given) refl

  substitute-value :
      (loop : Bytes → ℕ → Outcome) (out text name : Bytes) (size : ℕ)
      → IsSegment longest (text, name)
      → Gives coroutine values name
      → length text + length (values name) + longest < size
      → size < 2 ^ 32
      → substitute coroutine loop out size text name
        ≡ loop (out ++ (text ++ values name)) (size - length text - length (values name))
  unfolding substitute
  substitute-value loop out text name size s g h k =
      let room : sub_size size (length text) ≡ size - length text = omega arith in
      let left : sub_size (size - length text) (length (values name))
          ≡ size - length text - length (values name) =
        omega arith in
      let value = replace-value text name size s g h k in
      rw (s.nonempty, has_open-Free name s.no_open, value, room, left) refl

  pattern_loop-source :
      (fuel : ℕ) (ts : Template) (final out : Bytes) (size : ℕ)
      → length ts < fuel
      → All (IsSegment longest) ts
      → GivesAll coroutine values ts
      → Free b'{' final
      → length (expansion values ts final) + longest < size
      → size < 2 ^ 32
      → pattern_loop coroutine fuel (source ts final) out size
        ≡ done (out ++ expansion values ts final)
  unfolding pattern_loop
  pattern_loop-source zero ts final out size f ss gs n h k = absurd (omega arith)
  pattern_loop-source (suc fuel) [] [] out size f ss gs n h k = rw (append-nil out) refl
  pattern_loop-source (suc fuel) [] (c ∷ cs) out size f ss gs n h k =
      let fits : ltb (sub_size size 1) (length (c ∷ cs)) ≡ false = ground arith in
      rw (index-Free b'{' (c ∷ cs) n, fits, pattern_loop) refl
  pattern_loop-source (suc fuel) ((text, name) ∷ ts) final out size f (s, ss) (g, gs) n h k =
      let rest = source ts final in
      let out' = out ++ (text ++ values name) in
      let len = length-append text (values name ++ expansion values ts final) in
      let len' = length-append (values name) (expansion values ts final) in
      pattern_loop-name coroutine fuel size (text ++ b'{' ∷ (name ++ b'}' ∷ rest)) out text name
        (name ++ b'}' ∷ rest) rest (index-append b'{' text (name ++ b'}' ∷ rest) s.text_free)
        (index-append b'}' name rest s.no_close)
      ∙ (substitute-value (pattern_loop coroutine fuel rest) out text name size s g
            (omega (arith, len, len')) k
          ∙ (pattern_loop-source fuel ts final out' (size - length text - length (values name))
                (omega arith) ss gs n (omega (arith, len, len')) (omega arith)
              ∙ ap done (
                  append_assoc out (text ++ values name) (expansion values ts final)
                  ∙ ap (◌++◌ out) (append_assoc text (values name) (expansion values ts final)))))

length-source : (ts : Template) (final : Bytes) → length ts ≤ length (source ts final)
length-source [] final = omega arith
length-source ((text, name) ∷ ts) final =
    let rest = source ts final in
    omega (
      arith,
      length-append text (b'{' ∷ (name ++ b'}' ∷ rest)),
      length-append name (b'}' ∷ rest),
      length-source ts final,
    )

-- A template is expanded: `gm_pattern_string` returns 0 with each name replaced by its value and
-- the texts between copied, if the coroutine gives the values of these names where they fit, and
-- the expansion and the longest name together are shorter than the buffer.
pub gm_pattern_string-source :
    (coroutine : Coroutine) (values : Bytes → Bytes) (longest : ℕ) (ts : Template) (final : Bytes)
    (size : ℕ)
    → All (IsSegment longest) ts
    → GivesAll coroutine values ts
    → Free b'{' final
    → length (expansion values ts final) + longest < size
    → size < 2 ^ 32
    → gm_pattern_string coroutine (source ts final) size ≡ done (expansion values ts final)
unfolding gm_pattern_string
gm_pattern_string-source coroutine values longest ts final size ss gs n h k =
    pattern_loop-source coroutine values longest (length (source ts final) + 1) ts final [] size
      (omega (arith, length-source ts final)) ss gs n h k
