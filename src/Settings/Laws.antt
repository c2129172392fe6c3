-- ===== src/Settings/Laws.antt =====
-- Settings are read back as they were set, and secrets are not listed.
use rigcontrol.Common.{
  suc, ◌≤◌, ltb, ltb→lt, arith, ℕ, ◌<◌, ◌≡◌, ◌≢◌, ◌∙◌, refl, sym, ap, inl, inr, Bool, true, false,
  Option, none, some, List, [], ◌∷◌, Bytes, All, length, if◌then◌else◌, Bool-cases, Option-cases,
}
use rigcontrol.Settings.{
  Result, Setting, gm_nonvolatile, erased, Nvs, Device, find_setting, row, list_table,
  gm_nonvolatile_list, gm_nonvolatile_get, called_after_set, gm_nonvolatile_set,
}

module _ {S : Type 0} (nvs : Nvs S) where
  open nvs use {nvs_get_str, nvs_set_str, nvs_erase_key}

  -- What the platform documents of its store: a value that was set is read back into a buffer that
  -- holds it and its null, but not into a shorter one, an erased one is not there, and other keys are left alone.
  pub record IsStore : Type 0 where
    pub get_set :
        (s s' : S) (key value : Bytes) (size : ℕ)
        → nvs_set_str s key value ≡ some s'
        → length value < size
        → nvs_get_str s' key size ≡ some value
    pub get_set_long :
        (s s' : S) (key value : Bytes) (size : ℕ)
        → nvs_set_str s key value ≡ some s'
        → size ≤ length value
        → nvs_get_str s' key size ≡ none
    pub get_set_other :
        (s s' : S) (key value other : Bytes) (size : ℕ)
        → nvs_set_str s key value ≡ some s'
        → other ≢ key
        → nvs_get_str s' other size ≡ nvs_get_str s other size
    pub get_erase :
        (s s' : S) (key : Bytes) (size : ℕ)
        → nvs_erase_key s key ≡ erased s'
        → nvs_get_str s' key size ≡ none

  store_after : (p : Setting) (d : Device S) → (called_after_set nvs p d).store ≡ d.store
  store_after p d = elim (Bool-cases p.restarts) [ inl e ↦ rw e refl | inr e ↦ rw e refl ]

  restarts_after :
      (p : Setting) (d : Device S)
      → (called_after_set nvs p d).restarts ≡ (if p.restarts then suc d.restarts else d.restarts)
  restarts_after p d = elim (Bool-cases p.restarts) [ inl e ↦ rw e refl | inr e ↦ rw e refl ]

  -- What a successful set has done.
  pub record WasSet (key value : Bytes) (d d' : Device S) : Type 0 where
    pub setting : Setting
    pub known : find_setting gm_nonvolatile key ≡ some setting
    pub stored : nvs_set_str d.store key value ≡ some d'.store
    pub restarted : d'.restarts ≡ (if setting.restarts then suc d.restarts else d.restarts)

  set-WasSet :
      (key value : Bytes) (d d' : Device S)
      → gm_nonvolatile_set nvs key value d ≡ (d', Result.gm_normal)
      → WasSet key value d d'
  unfolding gm_nonvolatile_set
  set-WasSet key value d d' h = elim (Option-cases (find_setting gm_nonvolatile key)) [
    | inl n ↦ absurd (not_normal₁ (ap (λ r. r.1) (rw n at h)))
    | inr (p, e) ↦ elim (Option-cases (nvs_set_str d.store key value)) [
      | inl n ↦ absurd (not_normal₂ (ap (λ r. r.1) (rw (e, n) at h)))
      | inr (s, k) ↦ record {
        setting = p;
        known = e;
        stored =
            k
            ∙ ap some (
                sym (store_after p (record d { store = s }))
                ∙ ap (λ r. r.0.store) (rw (e, k) at h));
        restarted =
            sym (ap (λ r. r.0.restarts) (rw (e, k) at h))
            ∙ restarts_after p (record d { store = s });
      }
    ]
  ]
    where
      not_normal₁ : Result.gm_not_in_parameter_table ≢ Result.gm_normal
      not_normal₁ q = cc

      not_normal₂ : Result.gm_error ≢ Result.gm_normal
      not_normal₂ q = cc

  -- The answer for a setting that has a value.
  abbrev pub answer_of : Setting → Bytes → Result × Option Bytes
  answer_of p value =
      if p.secret then (Result.gm_secret, some value) else (Result.gm_normal, some value)

  get_known :
      (s : S) (key value : Bytes) (size : ℕ) (p : Setting)
      → find_setting gm_nonvolatile key ≡ some p
      → nvs_get_str s key size ≡ some value
      → gm_nonvolatile_get nvs s key size ≡ answer_of p value
  unfolding gm_nonvolatile_get
  get_known s key value size p known there = elim (Bool-cases p.secret) [
    | inl e ↦ rw (known, there, e, gm_nonvolatile_get) refl
    | inr e ↦ rw (known, there, e, gm_nonvolatile_get) refl
  ]

  get_unset :
      (s : S) (key : Bytes) (size : ℕ) (p : Setting)
      → find_setting gm_nonvolatile key ≡ some p
      → nvs_get_str s key size ≡ none
      → gm_nonvolatile_get nvs s key size ≡ (Result.gm_not_set, some [])
  unfolding gm_nonvolatile_get
  get_unset s key size p known there = rw (known, there, gm_nonvolatile_get) refl

  get_same :
      (s s' : S) (key : Bytes) (size : ℕ)
      → nvs_get_str s key size ≡ nvs_get_str s' key size
      → gm_nonvolatile_get nvs s key size ≡ gm_nonvolatile_get nvs s' key size
  unfolding gm_nonvolatile_get
  get_same s s' key size same = elim (Option-cases (find_setting gm_nonvolatile key)) [
    | inl n ↦ rw (n, gm_nonvolatile_get) refl
    | inr (p, e) ↦ rw (e, same, gm_nonvolatile_get) refl
  ]

  -- What gm_nonvolatile_set stored with success is what gm_nonvolatile_get then finds, marked as a
  -- secret where the setting is one, if the buffer holds it and its null; into a shorter buffer it is
  -- not found at all. The WiFi was restarted once for a setting that asks for it, and not for others,
  -- and every other setting is as before. The store keeps what the platform documents.
  pub gm_nonvolatile_get-set :
      (key value other : Bytes) (size : ℕ) (d d' : Device S)
      → IsStore
      → gm_nonvolatile_set nvs key value d ≡ (d', Result.gm_normal)
      → other ≢ key
      → ((p : Setting) × (find_setting gm_nonvolatile key ≡ some p)
          × (gm_nonvolatile_get nvs d'.store key size ≡ (
              if ltb (length value) size then answer_of p value else (Result.gm_not_set, some [])))
          × (d'.restarts ≡ (if p.restarts then suc d.restarts else d.restarts)))
        × (gm_nonvolatile_get nvs d'.store other size ≡ gm_nonvolatile_get nvs d.store other size)
  gm_nonvolatile_get-set key value other size d d' laws h differs = (
    (w.setting, w.known, found, w.restarted),
    get_same d'.store d.store other size
        (laws.get_set_other d.store d'.store key value other size w.stored differs),
  )
    where
      w : WasSet key value d d'
      w = set-WasSet key value d d' h

      found : gm_nonvolatile_get nvs d'.store key size ≡ (
          if ltb (length value) size
          then answer_of w.setting value
          else (Result.gm_not_set, some []))
      found = elim (Bool-cases (ltb (length value) size)) [
        | inl e ↦ rw e (
            get_known d'.store key value size w.setting w.known
              (laws.get_set d.store d'.store key value size w.stored (ltb→lt _ _ e)))
        | inr e ↦ rw e (
            get_unset d'.store key size w.setting w.known
              (laws.get_set_long d.store d'.store key value size w.stored (ground (arith, e))))
      ]

  -- A secret is only seen to be there or not; any other value is seen itself.
  abbrev pub SameView : Bool → Option Bytes → Option Bytes → Type 0
  SameView false v v' = v ≡ v'
  SameView true none none = Unit
  SameView true (some v) (some v') = Unit
  SameView true _ _ = ⊥

  abbrev pub Agree : ℕ → List Setting → S → S → Type 0
  Agree size ps s s' =
      All
        (λ (p : Setting).
          SameView p.secret (nvs_get_str s p.name size) (nvs_get_str s' p.name size))
        ps

  row_agrees :
      (p : Setting) (secret : Bool) (v v' : Option Bytes)
      → p.secret ≡ secret
      → SameView secret v v'
      → row nvs p v ≡ row nvs p v'
  row_agrees p false v v' e a = ap (row nvs p) a
  row_agrees p true none none e a = refl
  row_agrees p true (some v) (some v') e a = rw e refl
  row_agrees p true none (some v') e a = absurd a
  row_agrees p true (some v) none e a = absurd a

  list_agrees :
      (ps : List Setting) (s s' : S)
      → Agree 1024 ps s s'
      → list_table nvs ps s ≡ list_table nvs ps s'
  unfolding list_table
  list_agrees [] s s' a = refl
  list_agrees (p ∷ ps) s s' (h, a) =
      rw (row_agrees p p.secret (nvs_get_str s p.name 1024) (nvs_get_str s' p.name 1024) refl h)
        (ap (◌∷◌ (row nvs p (nvs_get_str s' p.name 1024))) (list_agrees ps s s' a))

  -- The list tells nothing of a secret but whether it is set: two stores that agree on all settings
  -- that are no secrets, and on which secrets are set, are listed alike.
  pub gm_nonvolatile_list_agrees :
      (s s' : S)
      → Agree 1024 gm_nonvolatile s s'
      → gm_nonvolatile_list nvs s ≡ gm_nonvolatile_list nvs s'
  unfolding gm_nonvolatile_list
  gm_nonvolatile_list_agrees s s' a = list_agrees gm_nonvolatile s s' a
