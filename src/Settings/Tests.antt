-- ===== src/Settings/Tests.antt =====
-- A store that is a function of the key, and the settings theorems on it.
use rigcontrol.Common.{
  ◌≤◌, ltb, ℕ, ◌<◌, ◌≡◌, ◌≢◌, ◌∙◌, refl, sym, ap, inl, inr, arith, false, Option, none, some, [],
  Bytes, codes, length, ltb, if◌then◌else◌, str_eq, str_eq_refl, str_eq_iff, Bool-cases,
}
use rigcontrol.Settings.{
  Result, Setting, gm_nonvolatile, Erased, erased, Nvs, Device, find_setting, gm_nonvolatile_get,
  gm_nonvolatile_set,
}
use rigcontrol.Settings.Laws.{IsStore, answer_of, gm_nonvolatile_get-set, Agree}
use rigcontrol.Settings.Command.{Args, nonvolatile, nonvolatile_agrees}

abbrev Keys : Type 0
Keys = Bytes → Option Bytes

abbrev fit : Option Bytes → ℕ → Option Bytes
fit none size = none
fit (some v) size = if ltb (length v) size then some v else none

abbrev put_key : Keys → Bytes → Option Bytes → Keys
put_key s key value other = if str_eq other key then value else s other

abbrev memory : Nvs Keys
memory = record {
  nvs_get_str = λ s key size. fit (s key) size;
  nvs_set_str = λ s key value. some (put_key s key (some value));
  nvs_erase_key = λ s key. erased (put_key s key none);
}

fit-some : (value : Bytes) (size : ℕ) → length value < size → fit (some value) size ≡ some value
fit-some value size h = ground arith

fit-long : (value : Bytes) (size : ℕ) → size ≤ length value → fit (some value) size ≡ none
fit-long value size h = ground arith

put_key-same : (s : Keys) (key : Bytes) (value : Option Bytes) → put_key s key value key ≡ value
put_key-same s key value = rw (str_eq_refl key) refl

put_key-other :
    (s : Keys) (key other : Bytes) (value : Option Bytes)
    → other ≢ key
    → put_key s key value other ≡ s other
put_key-other s key other value n = elim (Bool-cases (str_eq other key)) [
  | inl e ↦ absurd (n ((str_eq_iff _ _).0 e))
  | inr e ↦ rw e refl
]

from_some : (s s' : Keys) → Path (Option Keys) (some s) (some s') → s ≡ s'
from_some s s' h = cc

from_erased : (s s' : Keys) → Path (Erased Keys) (erased s) (erased s') → s ≡ s'
from_erased s s' h = cc

memory-IsStore : IsStore memory
memory-IsStore = record {
  get_set = λ s s' key value size h fits.
      sym (ap (λ (x : Keys). fit (x key) size) (from_some _ _ h))
      ∙ ap (λ v. fit v size) (put_key-same s key (some value))
      ∙ fit-some value size fits;
  get_set_long = λ s s' key value size h long.
      sym (ap (λ (x : Keys). fit (x key) size) (from_some _ _ h))
      ∙ ap (λ v. fit v size) (put_key-same s key (some value))
      ∙ fit-long value size long;
  get_set_other = λ s s' key value other size h n.
      sym (ap (λ (x : Keys). fit (x other) size) (from_some _ _ h))
      ∙ ap (λ v. fit v size) (put_key-other s key other (some value) n);
  get_erase = λ s s' key size h.
      sym (ap (λ (x : Keys). fit (x key) size) (from_erased _ _ h))
      ∙ ap (λ v. fit v size) (put_key-same s key none);
}

abbrev blank : Device Keys
blank = record { store = λ key. none; restarts = 0; aborted = false }

abbrev shack : Device Keys
shack = record {
  store = put_key (λ key. none) (codes "ssid") (some (codes "shack"));
  restarts = 1;
  aborted = false;
}

-- A device on which the password is another one.
abbrev locked : Bytes → Device Keys
locked password = record {
  store = put_key (λ key. none) (codes "wifi_password") (some password);
  restarts = 0;
  aborted = false;
}

stored : gm_nonvolatile_set memory (codes "ssid") (codes "shack") blank ≡ (shack, Result.gm_normal)
unfolding gm_nonvolatile_set find_setting
stored = refl

differ : codes "timezone" ≢ codes "ssid"
differ e = cc

gm_nonvolatile_get-set_example :
    ((p : Setting) × (find_setting gm_nonvolatile (codes "ssid") ≡ some p)
      × (gm_nonvolatile_get memory shack.store (codes "ssid") 64
          ≡ (if ltb 5 64 then answer_of memory p (codes "shack") else (Result.gm_not_set, some [])))
      × (shack.restarts ≡ (if p.restarts then 1 else 0)))
    × (gm_nonvolatile_get memory shack.store (codes "timezone") 64
        ≡ gm_nonvolatile_get memory blank.store (codes "timezone") 64)
gm_nonvolatile_get-set_example =
    gm_nonvolatile_get-set memory (codes "ssid") (codes "shack") (codes "timezone") 64 blank shack
      memory-IsStore stored differ

listed-Agree :
    Agree memory 1024 gm_nonvolatile (locked (codes "secret")).store (locked (codes "other")).store
unfolding str_eq
listed-Agree = (refl, (refl, (tt, (refl, (tt, (refl, (refl, (refl, (tt, tt)))))))))

single-Agree :
    Agree memory 128 gm_nonvolatile (locked (codes "secret")).store (locked (codes "other")).store
unfolding str_eq
single-Agree = (refl, (refl, (tt, (refl, (tt, (refl, (refl, (refl, (tt, tt)))))))))

abbrev read_password : Args
read_password = record {
  argc = 2;
  errors = false;
  erase = false;
  name = some (codes "wifi_password");
  value = [];
}

nonvolatile_agrees_example :
    (nonvolatile memory read_password (locked (codes "secret"))).1
    ≡ (nonvolatile memory read_password (locked (codes "other"))).1
nonvolatile_agrees_example =
    nonvolatile_agrees memory read_password (locked (codes "secret")) (locked (codes "other"))
      listed-Agree single-Agree refl refl
