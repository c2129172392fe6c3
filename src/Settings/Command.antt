-- ===== src/Settings/Command.antt =====
-- components/commands/nonvolatile.c: the console's command nv, which lists, reads, sets and erases
-- settings.
use rigcontrol.Common.{
  ℕ, ◌≡◌, ◌∙◌, refl, sym, ap, inl, inr, Bool, true, false, Option, none, some, List, [], ◌∷◌, map,
  Bytes, codes, All, ◌==◌, if◌then◌else◌, str_eq, str_eq_iff, Bool-cases, Option-cases,
}
use mathlib.Core.Path.{subst}
use rigcontrol.Settings.{
  Result, Setting, gm_nonvolatile, Nvs, Row, Device, find_setting, gm_nonvolatile_list, value_of,
  gm_nonvolatile_get, gm_nonvolatile_set, gm_nonvolatile_erase,
}
use rigcontrol.Settings.Laws.{SameView, Agree, gm_nonvolatile_list_agrees}

-- What is printed: a setting's line, its name with its value, or an error.
pub data Printed : Type 0 where
  line : Bytes → Bytes → Bytes → Printed
  named : Bytes → Bytes → Printed
  name_missing not_in_table fail_called argument_errors : Printed

abbrev pub shown : Result → Bytes → Option Bytes
shown Result.gm_normal value = some value
shown Result.gm_not_set value = some (codes "(not set)")
shown Result.gm_secret value = some (codes "(secret)")
shown _ value = none

abbrev pub print_nonvolatile : Row → Printed
print_nonvolatile r = elim (shown r.type r.value) [
  | none ↦ fail_called
  | some v ↦ line r.name v r.explanation
]

-- The parsed arguments: their number with the command's name, and the names, values and `--erase`.
pub record Args : Type 0 where
  pub argc : ℕ
  pub errors : Bool
  pub erase : Bool
  pub name : Option Bytes
  pub value : Bytes

-- What the command prints, and whether it returns 0.
pub record Output : Type 0 where
  pub lines : List Printed
  pub success : Bool

abbrev pub or_empty : Option Bytes → Bytes
or_empty none = []
or_empty (some s) = s

module _ {S : Type 0} (nvs : Nvs S) where
  -- What the buffer of 128 bytes is shown as.
  unfoldable pub shown_value : Bytes → S → Option Bytes
  unfolding gm_nonvolatile_get
  shown_value name s = let got = gm_nonvolatile_get nvs s name 128 in shown got.0 (or_empty got.1)

  abbrev pub print_shown : Bytes → Option Bytes → Output
  print_shown name none = record { lines = fail_called ∷ []; success = false }
  print_shown name (some v) = record { lines = named name v ∷ []; success = true }

  -- The end of the command.
  unfoldable pub print_value : Bytes → Device S → Device S × Output
  unfolding shown_value
  print_value name d = (d, print_shown name (shown_value name d.store))

  unfoldable pub after_set : Bytes → Device S × Result → Device S × Output
  unfolding print_value
  after_set name (d, Result.gm_error) = (d, record { lines = []; success = false })
  after_set name (d, Result.gm_not_in_parameter_table) =
      (d, record { lines = not_in_table ∷ []; success = false })
  after_set name (d, _) = print_value name d

  unfoldable pub nonvolatile : Args → Device S → Device S × Output
  unfolding gm_nonvolatile_list gm_nonvolatile_set gm_nonvolatile_erase after_set print_value
  nonvolatile a d =
      if a.errors
      then (d, record { lines = argument_errors ∷ []; success = false })
      else if a.erase
      then elim a.name [
        | none ↦ (d, record { lines = name_missing ∷ []; success = false })
        | some name ↦ ((gm_nonvolatile_erase nvs name d).0, record { lines = []; success = true })
      ]
      else if a.argc == 1
      then (
        d,
        record { lines = map print_nonvolatile (gm_nonvolatile_list nvs d.store); success = true },
      )
      else if a.argc == 3
      then after_set (or_empty a.name) (gm_nonvolatile_set nvs (or_empty a.name) a.value d)
      else if a.argc == 2
      then print_value (or_empty a.name) d
      else (d, record { lines = []; success = false })

find_setting-All :
    (P : Setting → Type 0) (ps : List Setting) (key : Bytes) (p : Setting)
    → All P ps
    → find_setting ps key ≡ some p
    → P p × (p.name ≡ key)
unfolding find_setting
find_setting-All P [] key p a h = cc
find_setting-All P (q ∷ ps) key p (k, a) h = elim (Bool-cases (str_eq q.name key)) [
  | inl e ↦
      let same : q ≡ p = out q p (rw e at h) in
      (subst P same k, ap (λ (x : Setting). x.name) (sym same) ∙ (str_eq_iff _ _).0 e)
  | inr e ↦ find_setting-All P ps key p a (rw e at h)
]
  where
    out : (q p : Setting) → Path (Option Setting) (some q) (some p) → q ≡ p
    out q p h = cc

module _ {S : Type 0} (nvs : Nvs S) where
  shown_agrees :
      (p : Setting) (secret : Bool) (v v' : Option Bytes)
      → p.secret ≡ secret
      → SameView nvs secret v v'
      → shown (value_of nvs p v).0 (value_of nvs p v).1
        ≡ shown (value_of nvs p v').0 (value_of nvs p v').1
  shown_agrees p false v v' e a = ap (λ x. shown (value_of nvs p x).0 (value_of nvs p x).1) a
  shown_agrees p true none none e a = refl
  shown_agrees p true (some v) (some v') e a = rw e refl
  shown_agrees p true none (some v') e a = absurd a
  shown_agrees p true (some v) none e a = absurd a

  value_agrees :
      (name : Bytes) (s s' : S)
      → Agree nvs 128 gm_nonvolatile s s'
      → shown_value nvs name s ≡ shown_value nvs name s'
  unfolding shown_value gm_nonvolatile_get
  value_agrees name s s' a = elim (Option-cases (find_setting gm_nonvolatile name)) [
    | inl e ↦ rw (e, gm_nonvolatile_get) refl
    | inr (p, e) ↦
        let (same_view, is_name) =
          find_setting-All
            (λ (p : Setting).
              SameView nvs p.secret (nvs.nvs_get_str s p.name 128) (nvs.nvs_get_str s' p.name 128))
            gm_nonvolatile name p a e in
        let views = shown_agrees p p.secret _ _ refl same_view in
        rw (e, gm_nonvolatile_get) (rw is_name at views)
  ]

  -- The command nv tells nothing of a secret but whether a value is found that fits the buffers of 1,024
  -- and of 128 bytes, if it neither sets nor erases: on two stores in which the same secrets are found
  -- at both sizes, and that agree otherwise, it prints the same and returns the same.
  pub nonvolatile_agrees :
      (a : Args) (d d' : Device S)
      → Agree nvs 1024 gm_nonvolatile d.store d'.store
      → Agree nvs 128 gm_nonvolatile d.store d'.store
      → a.erase ≡ false
      → (a.argc == 3) ≡ false
      → (nonvolatile nvs a d).1 ≡ (nonvolatile nvs a d').1
  unfolding nonvolatile print_value
  nonvolatile_agrees a d d' listed single reads no_set = elim (Bool-cases a.errors) [
    | inl e ↦ rw (e, nonvolatile) refl
    | inr e ↦ elim (Bool-cases (a.argc == 1)) [
      | inl k ↦
          rw (e, reads, k, nonvolatile)
            (ap (λ rows. record { lines = map print_nonvolatile rows; success = true })
              (gm_nonvolatile_list_agrees nvs d.store d'.store listed))
      | inr k ↦ elim (Bool-cases (a.argc == 2)) [
        | inl j ↦
            rw (e, reads, k, no_set, j, nonvolatile)
              (ap (print_shown nvs (or_empty a.name))
                (value_agrees (or_empty a.name) d.store d'.store single))
        | inr j ↦ rw (e, reads, k, no_set, j, nonvolatile) refl
      ]
    ]
  ]
