-- ===== src/Filesystem/Placed.antt =====
-- Where bytes stand in an image.
use rigcontrol.Common.{
  le32, word_of, word_of-le32, ℕ, zero, suc, ◌+◌, ◌^◌, ◌≤◌, ◌<◌, ◌≡◌, ◌∙◌, refl, sym, ap, arith,
  Bytes, [], ◌∷◌, ◌++◌, length, take, drop, length-append, append_assoc, append-nil,
  take-length_append, Free, c_string, c_string-append,
}
use rigcontrol.Filesystem.Read.{name_at}

-- The bytes `s` stand in the image from an offset on.
pub record At (s : Bytes) (offset : ℕ) (image : Bytes) : Type 0 where
  pub before : Bytes
  pub behind : Bytes
  pub parts : image ≡ before ++ (s ++ behind)
  pub place : length before ≡ offset

drop-length_append :
    (before rest : Bytes) (n : ℕ) → n ≡ length before → drop n (before ++ rest) ≡ rest
drop-length_append [] rest zero e = refl
drop-length_append [] rest (suc n) e = absurd (omega arith)
drop-length_append (b ∷ before) rest zero e = absurd (omega arith)
drop-length_append (b ∷ before) rest (suc n) e = drop-length_append before rest n (omega arith)

pub drop-At :
    {s : Bytes} {offset : ℕ} {image : Bytes} (a : At s offset image)
    → drop offset image ≡ s ++ a.behind
drop-At {s} {offset} a = rw a.parts (drop-length_append a.before _ offset (sym a.place))

pub end-At : (body s : Bytes) (offset : ℕ) → offset ≡ length body → At s offset (body ++ s)
end-At body s offset e = record {
  before = body;
  behind = [];
  parts = rw (append-nil s) refl;
  place = sym e;
}

pub At-append :
    {s : Bytes} {offset : ℕ} {image : Bytes} (x : Bytes)
    → At s offset image
    → At s offset (image ++ x)
At-append {s} x a = record {
  before = a.before;
  behind = a.behind ++ x;
  parts =
      ap (λ i. i ++ x) a.parts
      ∙ append_assoc a.before (s ++ a.behind) x
      ∙ ap (λ r. a.before ++ r) (append_assoc s a.behind x);
  place = a.place;
}

pub At-behind :
    {s : Bytes} {offset : ℕ} {image : Bytes} (h : Bytes)
    → At s offset image
    → At s (length h + offset) (h ++ image)
At-behind {s} h a = record {
  before = h ++ a.before;
  behind = a.behind;
  parts = ap (λ i. h ++ i) a.parts ∙ sym (append_assoc h a.before (s ++ a.behind));
  place = length-append h a.before ∙ ap (λ n. length h + n) a.place;
}

pub At-left :
    (s t : Bytes) (offset : ℕ) (image : Bytes) → At (s ++ t) offset image → At s offset image
At-left s t offset image a = record {
  before = a.before;
  behind = t ++ a.behind;
  parts = a.parts ∙ ap (λ r. a.before ++ r) (append_assoc s t a.behind);
  place = a.place;
}

pub At-right :
    (s t : Bytes) (offset : ℕ) (image : Bytes)
    → At (s ++ t) offset image
    → At t (offset + length s) image
At-right s t offset image a = record {
  before = a.before ++ s;
  behind = a.behind;
  parts =
      a.parts
      ∙ ap (λ r. a.before ++ r) (append_assoc s t a.behind)
      ∙ sym (append_assoc a.before s (t ++ a.behind));
  place = length-append a.before s ∙ ap (λ n. n + length s) a.place;
}

pub take-At :
    (s : Bytes) (offset : ℕ) (image : Bytes)
    → At s offset image
    → take (length s) (drop offset image) ≡ s
take-At s offset image a = rw (drop-At a) (take-length_append s a.behind (length s) refl)

pub At-bound :
    (s : Bytes) (offset : ℕ) (image : Bytes) → At s offset image → offset + length s ≤ length image
At-bound s offset image a = omega (
  arith,
  a.place,
  ap length a.parts,
  length-append a.before (s ++ a.behind),
  length-append s a.behind,
)

pub word-At :
    (w offset : ℕ) (image : Bytes)
    → w < 2 ^ 32
    → At (le32 w) offset image
    → word_of (drop offset image) ≡ w
word-At w offset image h a = ap word_of (drop-At a) ∙ word_of-le32 w a.behind h

pub name-At :
    (n : Bytes) (offset : ℕ) (image : Bytes)
    → Free 0 n
    → At (n ++ 0 ∷ []) offset image
    → name_at image offset ≡ n
unfolding name_at
name-At n offset image free a =
    ap c_string (drop-At a ∙ append_assoc n (0 ∷ []) a.behind) ∙ c_string-append n a.behind free
