-- ===== src/Array/Refines.antt =====
-- The array is the list of what was added.
use rigcontrol.Common.{
  ℕ, zero, suc, ◌+◌, ◌-◌, ◌%◌, ◌^◌, ◌<◌, ◌≤◌, ◌≡◌, ◌∙◌, refl, sym, ap, ap₂, ◌⊎◌, inl, inr, arith,
  Bool, true, false, Option, none, some, List, [], ◌∷◌, ◌++◌, append_assoc, append-nil, map, length,
  get_elem?, set, replicate, length-append, ltb, ◌==◌, if◌then◌else◌,
}
use mathlib.Core.Path.{subst}
use rigcontrol.Array.{
  increment_size, GmArray, Got, aborted, read, gm_array_create, grown, gm_array_add, gm_array_size,
  gm_array_get,
}

module _ {A : Type 0} where
  -- The block begins with the elements of a list, and the other places were never written.
  pub record Holds (xs : List A) (array : GmArray A) : Type 0 where
    pub room : ℕ
    pub block : array.block ≡ map some xs ++ replicate room none
    pub used : array.used ≡ length xs
    pub size : array.size ≡ length xs + room

  set-map :
      (xs : List A) (x : A) (rest : List (Option A))
      → set (map some xs ++ none ∷ rest) (length xs) (some x) ≡ map some (xs ++ x ∷ []) ++ rest
  set-map [] x rest = refl
  set-map (y ∷ ys) x rest = ap (◌∷◌ (some y)) (set-map ys x rest)

  get_elem?-map :
      (xs : List A) (rest : List (Option A)) (i : ℕ)
      → (x : A) → get_elem? xs i ≡ some x
      → get_elem? (map some xs ++ rest) i ≡ some (some x)
  get_elem?-map [] rest i y h = cc
  get_elem?-map (x ∷ xs) rest zero y h = ap some h
  get_elem?-map (x ∷ xs) rest (suc i) y h = get_elem?-map xs rest i y h

  get_elem?-cases :
      (xs : List A) (i : ℕ)
      → ((get_elem? xs i ≡ none) × (length xs ≤ i))
        ⊎ ((x : A) × (get_elem? xs i ≡ some x) × (i < length xs))
  get_elem?-cases [] i = inl (refl, omega arith)
  get_elem?-cases (x ∷ xs) zero = inr (x, refl, omega arith)
  get_elem?-cases (x ∷ xs) (suc i) = elim (get_elem?-cases xs i) [
    | inl (e, h) ↦ inl (e, omega arith)
    | inr (y, e, h) ↦ inr (y, e, omega arith)
  ]

  -- Room for one more element.
  record HasRoom (xs : List A) (array : GmArray A) : Type 0 where
    more : ℕ
    block : array.block ≡ map some xs ++ none ∷ replicate more none
    used : array.used ≡ length xs
    size : array.size ≡ length xs + suc more

  grown-HasRoom : (xs : List A) (array : GmArray A) → Holds xs array → HasRoom xs (grown array)
  grown-HasRoom xs array h = go h.room h.block h.size
    where
      bigger : GmArray A
      bigger = record array {
        block = array.block ++ replicate increment_size none;
        size = array.size + increment_size;
      }

      pick :
          (b : Bool)
          → (array.used == array.size) ≡ b
          → HasRoom xs (if b then bigger else array)
          → HasRoom xs (grown array)
      pick b e r = subst (λ c. HasRoom xs (if c then bigger else array)) (sym e) r

      go :
          (room : ℕ)
          → array.block ≡ map some xs ++ replicate room none
          → array.size ≡ length xs + room
          → HasRoom xs (grown array)
      go zero e s = pick true (let u = h.used in ground arith) (record {
        more = 19;
        block = ap (λ b. b ++ replicate increment_size none) (e ∙ append-nil (map some xs));
        used = h.used;
        size = omega arith;
      })
      go (suc room) e s =
          pick false (let u = h.used in ground arith)
            (record { more = room; block = e; used = h.used; size = s })

  gm_array_add-Holds :
      (xs : List A) (x : A) (array : GmArray A)
      → Holds xs array
      → Holds (xs ++ x ∷ []) (gm_array_add array x)
  unfolding gm_array_add
  gm_array_add-Holds xs x array h =
      let r = grown-HasRoom xs array h in
      record {
        room = r.more;
        block = ap₂ (λ b n. set b n (some x)) r.block r.used ∙ set-map xs x (replicate r.more none);
        used = omega (arith, r.used, length-append xs (x ∷ []));
        size = omega (arith, r.size, length-append xs (x ∷ []));
      }

  pub gm_array_create-Holds : Holds [] gm_array_create
  unfolding gm_array_create
  gm_array_create-Holds = record { room = 20; block = refl; used = refl; size = refl }

  unfoldable pub add_each : List A → GmArray A → GmArray A
  unfolding gm_array_add
  add_each [] array = array
  add_each (x ∷ xs) array = add_each xs (gm_array_add array x)

  pub add_each-Holds :
      (xs more : List A) (array : GmArray A)
      → Holds xs array
      → Holds (xs ++ more) (add_each more array)
  unfolding add_each
  add_each-Holds xs [] array h = subst (λ l. Holds l array) (sym (append-nil xs)) h
  add_each-Holds xs (x ∷ more) array h =
      subst (λ l. Holds l (add_each more (gm_array_add array x))) (append_assoc xs (x ∷ []) more)
        (add_each-Holds (xs ++ x ∷ []) more (gm_array_add array x)
          (gm_array_add-Holds xs x array h))

  -- What gm_array_get gives for an element, or for none.
  abbrev pub got : Option A → Got A
  got none = aborted
  got (some x) = read (some (some x))

  pub get-Holds :
      (xs : List A) (array : GmArray A) (i : ℕ)
      → Holds xs array
      → 0 < length xs
      → length xs < 2 ^ 32
      → gm_array_get array i ≡ got (get_elem? xs i)
  unfolding gm_array_get
  get-Holds xs array i h k b = elim (get_elem?-cases xs i) [
    | inl (e, behind) ↦
        let u = h.used in
        let is_behind : ltb ((array.used + 2 ^ 32 - 1) % 2 ^ 32) i ≡ true = ground arith in
        rw (e, is_behind, gm_array_get) refl
    | inr (x, e, within) ↦
        let u = h.used in
        let is_within : ltb ((array.used + 2 ^ 32 - 1) % 2 ^ 32) i ≡ false = ground arith in
        let there =
          ap (λ b. get_elem? b i) h.block ∙ get_elem?-map xs (replicate h.room none) i x e in
        rw (e, is_within, there, gm_array_get) refl
  ]

  -- The array is a list: after any number of elements was added, its size is their number, and
  -- gm_array_get gives each of them by its index and aborts for every other index, however often the
  -- block has grown; at least one element was added, and fewer than 2 ^ 32.
  pub gm_array_get-add_each :
      (xs : List A) (i : ℕ)
      → 0 < length xs
      → length xs < 2 ^ 32
      → (gm_array_size (add_each xs gm_array_create) ≡ length xs)
        × (gm_array_get (add_each xs gm_array_create) i ≡ got (get_elem? xs i))
  unfolding gm_array_size
  gm_array_get-add_each xs i h b =
      let holds = add_each-Holds [] xs gm_array_create gm_array_create-Holds in
      (holds.used, get-Holds xs (add_each xs gm_array_create) i holds h b)
