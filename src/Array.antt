-- ===== src/Array.antt =====
-- components/generic_main/array.c: an array of pointers that grows by twenty places.
pub mod Refines
mod Tests
use rigcontrol.Common.{
  ℕ, suc, ◌+◌, ◌-◌, ◌%◌, ◌^◌, Option, none, some, List, ◌++◌, get_elem?, set, replicate, ltb, ◌==◌,
  if◌then◌else◌,
}

abbrev pub increment_size : ℕ
increment_size = 20

-- `GM_Array`: `none` is a place that was never written.
pub record GmArray (A : Type 0) : Type 0 where
  pub block : List (Option A)
  pub used : ℕ
  pub size : ℕ

-- What gm_array_get does: it aborts, or reads the block; the outer `none` is a read behind the block.
pub data Got (A : Type 0) : Type 0 where
  aborted : Got A
  read : Option (Option A) → Got A

module _ {A : Type 0} where
  unfoldable pub gm_array_create : GmArray A
  gm_array_create = record {
    block = replicate increment_size none;
    used = 0;
    size = increment_size;
  }

  -- The new block holds what the old one held.
  abbrev pub grown : GmArray A → GmArray A
  grown array =
      if array.used == array.size
      then record array {
        block = array.block ++ replicate increment_size none;
        size = array.size + increment_size;
      }
      else array

  abbrev pub store_at_end : A → GmArray A → GmArray A
  store_at_end data_pointer array = record array {
    block = set array.block array.used (some data_pointer);
    used = suc array.used;
  }

  unfoldable pub gm_array_add : GmArray A → A → GmArray A
  gm_array_add array data_pointer = store_at_end data_pointer (grown array)

  unfoldable pub gm_array_size : GmArray A → ℕ
  gm_array_size array = array.used

  -- `used - 1` is of type `size_t`, so it wraps.
  unfoldable pub gm_array_get : GmArray A → ℕ → Got A
  gm_array_get array index =
      if ltb ((array.used + 2 ^ 32 - 1) % 2 ^ 32) index
      then aborted
      else read (get_elem? array.block index)
