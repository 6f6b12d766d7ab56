-- ===== src/Values/Slot.antt =====
-- `Slot` of src/db/values.h. A `shared_ptr<Value>` is an address in a heap of values, or null, so that two keys
-- may share a value; `steady_clock::now()` is an argument, in nanoseconds.
pub mod Live
pub mod Fields
use fast_db.Prelude.{
  ℕ, zero, suc, ◌*◌, ◌-◌, ◌+◌, ℤ, pos, negsuc, ◌+ℤ◌, ltb_ℤ, Bool, true, false, List, [], ◌∷◌, ◌++◌,
  Bytes, codes, Option, none, some, if◌then◌else◌, get_elem?, set, bytes_eq,
}
use fast_db.Prelude.Assoc.{Assoc, find, insert, erase}
use fast_db.Values.Value.{Value, map_value, type_name, print}
use fast_db.Values.Value.Doubles.{Double}
use fast_db.Values.Value.MapValue

abbrev pub ValuePtr : Type 0
ValuePtr = Option ℕ

abbrev pub Heap : Type 0 → Type 0
Heap D = List (Value D)

pub record Slot : Type 0 where
  pub items : Assoc Bytes ValuePtr
  pub expiration_times : Assoc Bytes ℤ

abbrev pub empty_slot : Slot
empty_slot = record { items = []; expiration_times = [] }

unfoldable pub set_value : Bytes → ValuePtr → Slot → Slot
set_value key value s = record s { items = insert key value s.items }

-- An entry of `expiration_times` that has passed.
unfoldable pub is_expired : ℤ → Option ℤ → Bool
is_expired now none = false
is_expired now (some deadline) = ltb_ℤ deadline now

-- The pointer that `data.find(key)` leads to, and null at `data.end()`.
unfoldable pub pointer_of : Option ValuePtr → ValuePtr
pointer_of none = none
pointer_of (some p) = p

unfoldable pub get_value : ℤ → Bytes → Slot → ValuePtr × Slot
unfolding is_expired pointer_of
get_value now key s =
    if is_expired now (find key s.expiration_times)
    then (
      none,
      record s { items = erase key s.items; expiration_times = erase key s.expiration_times },
    )
    else (pointer_of (find key s.items), s)

unfoldable pub remove : Bytes → Slot → Slot
remove key s = record s {
  items = erase key s.items;
  expiration_times = erase key s.expiration_times;
}

-- `std::chrono::seconds` as nanoseconds.
unfoldable pub seconds : ℤ → ℤ
seconds (pos n) = pos (n * 1_000_000_000)
seconds (negsuc n) = negsuc (suc n * 1_000_000_000 - 1)

unfoldable pub set_expiration : ℤ → Bytes → ℤ → Slot → Slot
unfolding seconds
set_expiration now key ttl_seconds s = record s {
  expiration_times = insert key (now +ℤ seconds ttl_seconds) s.expiration_times;
}

-- What `hget` comes to: a text, or the `std::out_of_range` of `MapValue::get`.
pub data Lookup : Type 0 where
  returned : Bytes → Lookup
  out_of_range : Lookup

unfoldable pub field_of : Option Bytes → Lookup
field_of none = out_of_range
field_of (some value) = returned value

unfoldable pub hget_at : Option (Assoc Bytes Bytes) → Bytes → Lookup
unfolding field_of
hget_at none field = returned []
hget_at (some m) field = field_of (MapValue.get field m)

module _ {D : Type 0} where
  -- `dynamic_pointer_cast<MapValue>`, with what it points to; null for any other value.
  unfoldable pub as_map : Option (Value D) → Option (Assoc Bytes Bytes)
  as_map (some (map_value m)) = some m
  as_map _ = none

  -- The value behind a pointer.
  unfoldable pub load : Heap D → ValuePtr → Option (Value D)
  load heap none = none
  load heap (some a) = get_elem? heap a

  -- `map_value->set(field, value)` through the pointer.
  unfoldable pub store_field : Heap D → ValuePtr → Assoc Bytes Bytes → Heap D
  store_field heap none m = heap
  store_field heap (some a) m = set heap a (map_value m)

  -- The heap afterwards, and whether the field was set.
  unfoldable pub hset_at :
      Heap D → ValuePtr → Option (Assoc Bytes Bytes) → Bytes → Bytes → Heap D × Bool
  unfolding store_field
  hset_at heap p none field value = (heap, false)
  hset_at heap p (some m) field value = (store_field heap p (MapValue.set field value m), true)

  unfoldable pub hset : Bytes → Bytes → Bytes → Slot → Heap D → Heap D × Bool
  hset key field value s heap =
      let p = pointer_of (find key s.items) in hset_at heap p (as_map (load heap p)) field value

  unfoldable pub hget : Bytes → Bytes → Slot → Heap D → Lookup
  hget key field s heap = hget_at (as_map (load heap (pointer_of (find key s.items)))) field

module _ (double : Double) where
  open double use {D}

  -- One line of `Slot::print`; a null pointer is followed all the same, which is undefined: `none`.
  unfoldable pub print_entry : Bytes → Option (Value D) → Option Bytes
  print_entry key none = none
  print_entry key (some v) = some (
      codes "Key: "
      ++ (key ++ (codes ", Type: " ++ (type_name v ++ (codes " -> " ++ print double v)))))

  abbrev pub join_lines : Option Bytes → Option Bytes → Option Bytes
  join_lines none rest = none
  join_lines (some line) none = none
  join_lines (some line) (some rest) = some (line ++ rest)

  unfoldable pub print_slot : Heap D → Assoc Bytes ValuePtr → Option Bytes
  unfolding print_entry
  print_slot heap [] = some []
  print_slot heap ((key, p) ∷ items) =
      join_lines (print_entry key (load heap p)) (print_slot heap items)
