-- ===== src/Select/Limit.antt =====
-- The limit of the descriptors, and the passes over them.
use rigcontrol.Common.{
  ℕ, zero, suc, ◌+◌, ◌≤◌, ◌<◌, ◌≡◌, ◌≢◌, ◌∙◌, refl, sym, ap, inl, inr, arith, Bool, true, false,
  ◌&&◌, ◌||◌, Option, none, some, List, [], ◌∷◌, All, ltb, ◌==◌, ==_iff, if◌then◌else◌, Bool-cases,
}
use rigcontrol.Select.{
  Entry, Table, number_of_fds, is_set, gm_fd_register, highest, gm_fd_unregister, runs_out, Notice,
  notify, dispatch, time_out, dispatch_loop, timeout_loop,
}

-- `fd_limit` lies above every descriptor that is set, and within the arrays.
abbrev pub IsLimited : Table → Type 0
IsLimited t =
    ((fd : ℕ) → is_set (t.entries fd) ≡ true → fd < t.fd_limit) × (t.fd_limit ≤ number_of_fds)

set_and_clear : true ≢ false
set_and_clear e = cc

highest-above : (es : ℕ → Entry) (n fd : ℕ) → is_set (es fd) ≡ true → fd < n → fd < highest es n
unfolding highest
highest-above es zero fd h less = absurd (omega (arith, less))
highest-above es (suc n) fd h less = elim (Bool-cases (is_set (es n))) [
  | inl e ↦ rw e less
  | inr e ↦ elim (Bool-cases (fd == n)) [
    | inl k ↦ absurd (set_and_clear (sym h ∙ ap (λ i. is_set (es i)) ((==_iff _ _).0 k) ∙ e))
    | inr k ↦ rw e (highest-above es n fd h (ground (arith, k, less)))
  ]
]

highest_le : (es : ℕ → Entry) (n : ℕ) → highest es n ≤ n
unfolding highest
highest_le es zero = omega arith
highest_le es (suc n) = ground (arith, highest_le es n)

-- A register within the arrays and every unregister keep that.
gm_fd_register-IsLimited :
    (fd : ℕ) (wanted : Entry) (seconds now : ℕ) (t : Table)
    → fd < number_of_fds
    → IsLimited t
    → IsLimited (gm_fd_register fd wanted seconds now t)
unfolding gm_fd_register
gm_fd_register-IsLimited fd wanted seconds now t less (above, le) = (
  λ i h. elim (Bool-cases (i == fd)) [
    | inl e ↦ ground (arith, e)
    | inr e ↦ ground (arith, above i (rw e at h), e)
  ],
  ground (arith, less, le),
)

gm_fd_unregister-IsLimited : (fd : ℕ) (t : Table) → IsLimited t → IsLimited (gm_fd_unregister fd t)
unfolding gm_fd_unregister
gm_fd_unregister-IsLimited fd t (above, le) = (
  λ i h. elim (Bool-cases (i == fd)) [
    | inl e ↦ absurd (set_and_clear (sym (rw e at h)))
    | inr e ↦
        let was = rw e at h in
        elim (Bool-cases (t.fd_limit == fd + 1)) [
          | inl k ↦ rw k (highest-above t.entries fd i was (ground (arith, above i was, e, k)))
          | inr k ↦ rw k (above i was)
        ]
  ],
  ground (arith, highest_le t.entries fd, le),
)

if-IsLimited : (b : Bool) (x y : Table) → IsLimited x → IsLimited y → IsLimited (if b then x else y)
if-IsLimited true x y l k = l
if-IsLimited false x y l k = k

-- Handlers that leave the table with its limit in order do so in every pass.
module _ (handle : ℕ → Notice → Table → Table) (monitored : ℕ → Bool) (now : ℕ)
    (keeps : (h : ℕ) (notice : Notice) (t : Table)
      → IsLimited t
      → IsLimited (handle h notice t)) where
  notify-IsLimited :
      (h : Option ℕ) (notice : Notice) (t : Table)
      → IsLimited t
      → IsLimited (notify handle monitored now h notice t)
  notify-IsLimited none notice t l = l
  notify-IsLimited (some h) notice t l = keeps h notice t l

  time_out-IsLimited :
      (i : ℕ) (t : Table) → IsLimited t → IsLimited (time_out handle monitored now i t)
  unfolding time_out
  time_out-IsLimited i t l =
      notify-IsLimited ((t.entries i).handler) _ (gm_fd_unregister i t)
        (gm_fd_unregister-IsLimited i t l)

  dispatch-IsLimited :
      (ready : ℕ → Entry) (i : ℕ) (t : Table)
      → IsLimited t
      → IsLimited (dispatch handle monitored now ready i t)
  unfolding dispatch
  dispatch-IsLimited ready i t l =
      if-IsLimited _ _ _
        (notify-IsLimited _ _ _ (if-IsLimited _ _ _ (gm_fd_unregister-IsLimited i t l) l)) l

  timeout_loop-IsLimited :
      (fuel i : ℕ) (timeout : Bool) (t : Table)
      → i ≤ number_of_fds
      → number_of_fds < fuel + i
      → IsLimited t
      → (t' : Table) × (timeout_loop handle monitored now fuel i timeout t ≡ some t') × IsLimited t'
  unfolding timeout_loop
  timeout_loop-IsLimited zero i timeout t le enough l = absurd (omega (arith, le, enough))
  timeout_loop-IsLimited (suc fuel) i timeout t le enough l = elim (Bool-cases (ltb i t.fd_limit)) [
    | inr e ↦ (t, rw e refl, l)
    | inl e ↦
        let e' : Entry = t.entries i in
        let out : Bool = timeout || (monitored i && runs_out e'.timeout now) in
        let reached : Table = if monitored i && out then time_out handle monitored now i t else t in
        let kept =
          if-IsLimited (monitored i && out) (time_out handle monitored now i t) t
            (time_out-IsLimited i t l) l in
        let rest =
          timeout_loop-IsLimited fuel (i + 1) out reached (ground (arith, e, l.1))
            (omega (arith, enough)) kept in
        (rest.0, rw e (rest.1), rest.2)
  ]

  dispatch_loop-IsLimited :
      (ready : ℕ → Entry) (fuel i : ℕ) (t : Table)
      → i ≤ number_of_fds
      → number_of_fds < fuel + i
      → IsLimited t
      → (t' : Table) × (dispatch_loop handle monitored now ready fuel i t ≡ some t') × IsLimited t'
  unfolding dispatch_loop
  dispatch_loop-IsLimited ready zero i t le enough l = absurd (omega (arith, le, enough))
  dispatch_loop-IsLimited ready (suc fuel) i t le enough l = elim (Bool-cases (ltb i t.fd_limit)) [
    | inr e ↦ (t, rw e refl, l)
    | inl e ↦
        let reached : Table = if monitored i then dispatch handle monitored now ready i t else t in
        let kept =
          if-IsLimited (monitored i) (dispatch handle monitored now ready i t) t
            (dispatch-IsLimited ready i t l) l in
        let rest =
          dispatch_loop-IsLimited ready fuel (i + 1) reached (ground (arith, e, l.1))
            (omega (arith, enough)) kept in
        (rest.0, rw e (rest.1), rest.2)
  ]

  -- Whatever select reports, and whatever the handlers register and unregister, both loops over the
  -- descriptors end within 101 rounds, and leave fd_limit above all descriptors that are set and
  -- within the arrays, if it is so before and every handler keeps it so.
  pub loops-IsLimited :
      (ready : ℕ → Entry) (t : Table)
      → IsLimited t
      → ((t' : Table) × (dispatch_loop handle monitored now ready 101 0 t ≡ some t') × IsLimited t')
        × ((t' : Table) × (timeout_loop handle monitored now 101 0 false t ≡ some t')
            × IsLimited t')
  loops-IsLimited ready t l = (
    dispatch_loop-IsLimited ready 101 0 t (omega arith) (omega arith) l,
    timeout_loop-IsLimited 101 0 false t (omega arith) (omega arith) l,
  )

-- What is done to the table from outside.
pub data Change : Type 0 where
  register : ℕ → Entry → ℕ → ℕ → Change
  unregister : ℕ → Change

-- A register of a descriptor within the arrays.
abbrev pub IsWithin : Change → Type 0
IsWithin (register fd wanted seconds now) = fd < number_of_fds
IsWithin (unregister fd) = Unit

unfoldable pub change_all : List Change → Table → Table
unfolding gm_fd_register gm_fd_unregister
change_all [] t = t
change_all (register fd wanted seconds now ∷ cs) t =
    change_all cs (gm_fd_register fd wanted seconds now t)
change_all (unregister fd ∷ cs) t = change_all cs (gm_fd_unregister fd t)

-- Any sequence of registers of descriptors below 100 and of unregisters keeps fd_limit above every
-- descriptor that is set and within the arrays.
pub change_all-IsLimited :
    (cs : List Change) (t : Table) → All IsWithin cs → IsLimited t → IsLimited (change_all cs t)
unfolding change_all
change_all-IsLimited [] t within l = l
change_all-IsLimited (register fd wanted seconds now ∷ cs) t (less, within) l =
    change_all-IsLimited cs _ within (gm_fd_register-IsLimited fd wanted seconds now t less l)
change_all-IsLimited (unregister fd ∷ cs) t (u, within) l =
    change_all-IsLimited cs _ within (gm_fd_unregister-IsLimited fd t l)
