-- ===== src/PortControl/Listen/Sound.antt =====
-- Starting and stopping the listeners leaves no descriptor behind.
use rigcontrol.Common.{
  ℕ, zero, suc, ◌≡◌, ◌≢◌, ◌⊎◌, ◌∙◌, refl, sym, ap, inl, inr, Bool, true, false, Option, none, some,
  ◌==◌, ==_iff, Bool-cases, Option-cases,
}
use rigcontrol.Select.{cleared, gm_fd_register, gm_fd_unregister}
use rigcontrol.Select.Descriptors.{mark, opened}
use rigcontrol.PortControl.Listen.{
  Listener, ipv4_unicast_sock, ipv4_multicast_sock, ipv6_unicast_sock, ipv6_multicast_sock,
  number_of, Net, assign, Results, listen_fail, open_socket, register, stop,
}

of_number : ℕ → Listener
of_number zero = ipv4_unicast_sock
of_number (suc zero) = ipv4_multicast_sock
of_number (suc (suc zero)) = ipv6_unicast_sock
of_number (suc (suc (suc n))) = ipv6_multicast_sock

of_number-number_of : (w : Listener) → of_number (number_of w) ≡ w
unfolding of_number
of_number-number_of ipv4_unicast_sock = refl
of_number-number_of ipv4_multicast_sock = refl
of_number-number_of ipv6_unicast_sock = refl
of_number-number_of ipv6_multicast_sock = refl

-- Either the same variable, or another one.
same-cases :
    (v w : Listener)
    → ((v ≡ w) × ((number_of v == number_of w) ≡ true)) ⊎ ((number_of v == number_of w) ≡ false)
same-cases v w = elim (Bool-cases (number_of v == number_of w)) [
  | inr e ↦ inr e
  | inl e ↦
      inl (sym (of_number-number_of v) ∙ ap of_number ((==_iff _ _).0 e) ∙ of_number-number_of w, e)
]

-- The descriptor is as it was in `base`.
abbrev pub Same : Net → Net → ℕ → Type 0
Same base n i = (n.is_open i ≡ base.is_open i) × (n.table.entries i ≡ base.table.entries i)

-- Closed descriptors are not in the table.
abbrev pub IsTidy : Net → Type 0
IsTidy n = (i : ℕ) → n.is_open i ≡ false → n.table.entries i ≡ cleared

-- The variables hold different open descriptors that `base` did not have, and all others are as in
-- `base`.
pub record IsSound (base n : Net) : Type 0 where
  pub distinct : (v w : Listener) (fd : ℕ) → n.sock v ≡ some fd → n.sock w ≡ some fd → v ≡ w
  pub is_open : (w : Listener) (fd : ℕ) → n.sock w ≡ some fd → n.is_open fd ≡ true
  pub is_new : (w : Listener) (fd : ℕ) → n.sock w ≡ some fd → base.is_open fd ≡ false
  pub others : (i : ℕ) → ((w : Listener) × (n.sock w ≡ some i)) ⊎ Same base n i

-- `socket` gives a descriptor that is not open.
abbrev pub IsUnused : Option ℕ → Net → Type 0
IsUnused o n = (fd : ℕ) → o ≡ some fd → n.is_open fd ≡ false

assign-cases :
    (w : Listener) (o : Option ℕ) (sock : Listener → Option ℕ) (v : Listener) (fd : ℕ)
    → assign w o sock v ≡ some fd
    → ((v ≡ w) × (o ≡ some fd)) ⊎ (((number_of v == number_of w) ≡ false) × (sock v ≡ some fd))
assign-cases w o sock v fd e = elim (same-cases v w) [
  | inl (q, k) ↦ inl (q, rw k at e)
  | inr k ↦ inr (k, rw k at e)
]

-- A variable with a descriptor is not the one without.
pub assign-other :
    (w v : Listener) (o : Option ℕ) (sock : Listener → Option ℕ)
    → sock v ≢ sock w
    → assign w o sock v ≡ sock v
assign-other w v o sock differ = elim (same-cases v w) [
  | inl (q, k) ↦ absurd (differ (ap sock q))
  | inr k ↦ rw k refl
]

pub assign_self : (w : Listener) (o : Option ℕ) (sock : Listener → Option ℕ) → assign w o sock w ≡ o
assign_self w o sock = rw ((==_iff (number_of w) (number_of w)).1 refl) refl

mark_self : (fd : ℕ) (b : Bool) (is_open : ℕ → Bool) → mark fd b is_open fd ≡ b
mark_self fd b is_open = rw ((==_iff fd fd).1 refl) refl

opened-true :
    (o : Option ℕ) (is_open : ℕ → Bool) (i : ℕ) → is_open i ≡ true → opened o is_open i ≡ true
opened-true none is_open i h = h
opened-true (some fd) is_open i h = elim (Bool-cases (i == fd)) [
  | inl e ↦ rw e refl
  | inr e ↦ rw e h
]

opened-cases :
    (o : Option ℕ) (is_open : ℕ → Bool) (i : ℕ) → (o ≡ some i) ⊎ (opened o is_open i ≡ is_open i)
opened-cases none is_open i = inr refl
opened-cases (some fd) is_open i = elim (Bool-cases (i == fd)) [
  | inl e ↦ inl (ap some (sym ((==_iff i fd).0 e)))
  | inr e ↦ inr (rw e refl)
]

not_none : (o : Option ℕ) (fd : ℕ) → o ≡ none → o ≡ some fd → ⊥
not_none o fd e k = cc

both : (b : Bool) → b ≡ true → b ≡ false → ⊥
both b e k = cc

module _ (base : Net) where
  pub listen_fail-IsSound :
      {n : Net} → (why : _) → IsSound base n → IsSound base (listen_fail why n)
  listen_fail-IsSound why s = record {
    distinct = s.distinct;
    is_open = s.is_open;
    is_new = s.is_new;
    others = s.others;
  }

  pub open_socket-IsSound :
      (w : Listener) (r : Results) (n : Net)
      → n.sock w ≡ none
      → IsUnused r.socket n
      → IsSound base n
      → IsSound base (open_socket w r n)
  open_socket-IsSound w r n empty unused s = record {
    distinct = λ u v fd e k. elim (assign-cases w r.socket n.sock u fd e) [
      | inl (p, new) ↦ elim (assign-cases w r.socket n.sock v fd k) [
        | inl (q, also) ↦ p ∙ sym q
        | inr (q, old) ↦ absurd (both _ (s.is_open v fd old) (unused fd new))
      ]
      | inr (p, old) ↦ elim (assign-cases w r.socket n.sock v fd k) [
        | inl (q, new) ↦ absurd (both _ (s.is_open u fd old) (unused fd new))
        | inr (q, also) ↦ s.distinct u v fd old also
      ]
    ];
    is_open = λ v fd e. elim (assign-cases w r.socket n.sock v fd e) [
      | inl (p, new) ↦ rw new (mark_self fd true n.is_open)
      | inr (p, old) ↦ opened-true r.socket n.is_open fd (s.is_open v fd old)
    ];
    is_new = λ v fd e. elim (assign-cases w r.socket n.sock v fd e) [
      | inr (p, old) ↦ s.is_new v fd old
      | inl (p, new) ↦ elim (s.others fd) [
        | inl (u, old) ↦ absurd (both _ (s.is_open u fd old) (unused fd new))
        | inr (same, also) ↦ sym same ∙ unused fd new
      ]
    ];
    others = λ i. elim (s.others i) [
      | inl (u, old) ↦
          inl (u, assign-other w u r.socket n.sock (λ q. not_none _ i empty (sym q ∙ old)) ∙ old)
      | inr (same, also) ↦ elim (opened-cases r.socket n.is_open i) [
        | inl new ↦ inl (w, assign_self w r.socket n.sock ∙ new)
        | inr kept ↦ inr (kept ∙ same, also)
      ]
    ];
  }

  pub register-IsSound :
      (handler now data_pointer : ℕ) (w : Listener) (r : Results) (n : Net)
      → n.sock w ≡ r.socket
      → IsSound base n
      → IsSound base (register handler now data_pointer r n)
  unfolding register gm_fd_register
  register-IsSound handler now data_pointer w r n there s = elim (Option-cases r.socket) [
    | inl e ↦ rw (e, register) s
    | inr (fd, e) ↦
        rw (e, register)
          (record {
            distinct = s.distinct;
            is_open = s.is_open;
            is_new = s.is_new;
            others = λ i. elim (Bool-cases (i == fd)) [
              | inl k ↦ inl (w, there ∙ e ∙ ap some (sym ((==_iff i fd).0 k)))
              | inr k ↦ elim (s.others i) [
                | inl old ↦ inl old
                | inr (same, also) ↦ inr (same, rw k also)
              ]
            ];
          })
  ]

  pub stop-IsSound :
      (w : Listener) (n : Net) → IsTidy base → IsSound base n → IsSound base (stop w n)
  unfolding stop gm_fd_unregister
  stop-IsSound w n tidy s = elim (Option-cases (n.sock w)) [
    | inl e ↦ rw (e, stop) s
    | inr (fd, e) ↦
        rw (e, stop)
          (record {
            distinct = λ u v i p q. s.distinct u v i (kept u i p) (kept v i q);
            is_open = λ v i p. elim (Bool-cases (i == fd)) [
              | inl k ↦ absurd (gone v i p fd (ap some ((==_iff i fd).0 k)) e)
              | inr k ↦ rw k (s.is_open v i (kept v i p))
            ];
            is_new = λ v i p. s.is_new v i (kept v i p);
            others = λ i. elim (Bool-cases (i == fd)) [
              | inl k ↦
                  let new = s.is_new w i (e ∙ ap some (sym ((==_iff i fd).0 k))) in
                  inr (rw k (sym new), rw k (sym (tidy i new)))
              | inr k ↦ elim (s.others i) [
                | inl (v, old) ↦
                    inl
                      (v, assign-other w v none n.sock (λ q. apart i fd k (sym old ∙ q ∙ e)) ∙ old)
                | inr (same, also) ↦ inr (rw k same, rw k also)
              ]
            ];
          })
  ]
    where
      kept : (v : Listener) (i : ℕ) → assign w none n.sock v ≡ some i → n.sock v ≡ some i
      kept v i p = elim (assign-cases w none n.sock v i p) [
        | inl (q, k) ↦ absurd (not_none none i refl k)
        | inr (q, old) ↦ old
      ]

      gone :
          (v : Listener) (i : ℕ)
          → assign w none n.sock v ≡ some i
          → (fd : ℕ) → Path (Option ℕ) (some i) (some fd)
          → n.sock w ≡ some fd
          → ⊥
      gone v i p fd same e = elim (assign-cases w none n.sock v i p) [
        | inl (q, k) ↦ not_none none i refl k
        | inr (q, old) ↦
            both (number_of v == number_of w)
              ((==_iff _ _).1 (ap number_of (s.distinct v w fd (old ∙ same) e))) q
      ]

      apart : (i fd : ℕ) → (i == fd) ≡ false → Path (Option ℕ) (some i) (some fd) → ⊥
      apart i fd k q = cc ((==_iff i fd).1 (inj q), k)
        where
          inj : Path (Option ℕ) (some i) (some fd) → i ≡ fd
          inj q = cc
