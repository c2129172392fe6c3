-- ===== src/Array/Tests.antt =====
-- An array whose block grows once, and an empty one.
use rigcontrol.Common.{ℕ, ◌≡◌, refl, arith, none, some, List, ◌++◌, length, get_elem?, replicate}
use rigcontrol.Array.{read, gm_array_create, gm_array_size, gm_array_get}
use rigcontrol.Array.Refines.{add_each, got, gm_array_get-add_each}

abbrev elements : List ℕ
elements = replicate 20 7 ++ replicate 2 9

-- The size of an empty array wraps, so a place that was never written is read.
empty_read : gm_array_get {A = ℕ} gm_array_create 0 ≡ read (some none)
unfolding gm_array_get gm_array_create
empty_read = refl

gm_array_get-add_each_example :
    (gm_array_size (add_each elements gm_array_create) ≡ length elements)
    × (gm_array_get (add_each elements gm_array_create) 21 ≡ got (get_elem? elements 21))
gm_array_get-add_each_example = gm_array_get-add_each elements 21 (omega arith) (omega arith)
