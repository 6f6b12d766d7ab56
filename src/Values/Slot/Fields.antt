-- ===== src/Values/Slot/Fields.antt =====
-- Hash fields behind shared pointers.
use fast_db.Prelude.{
  Bool, false, ◌&&◌, ◌==◌, ◌=?◌, Bytes, Option, none, some, if◌then◌else◌, bytes_eq, ◌≡◌, ◌↔◌,
  arith, get_elem?, get_elem?-set, inl, inr, Option-cases,
}
use fast_db.Prelude.Assoc.{Assoc, find, insert, find-insert}
use fast_db.Values.Value.{Value, map_value}
use fast_db.Values.Value.MapValue
use fast_db.Values.Slot.{
  Slot, Heap, ValuePtr, returned, pointer_of, load, as_map, store_field, hset_at, hset, hget_at,
  hget,
}

-- Two pointers to one value.
abbrev pub same_value : ValuePtr → ValuePtr → Bool
same_value none q = false
same_value (some a) none = false
same_value (some a) (some b) = a == b

module _ {D : Type 0} where
  as_map-some :
      (v : Option (Value D)) {m : Assoc Bytes Bytes} → as_map v ≡ some m → v ≡ some (map_value m)
  unfolding as_map
  as_map-some v h = ground arith

  hget_at-hset_at :
      (heap : Heap D) (p q : ValuePtr) (m : Assoc Bytes Bytes) (field other value : Bytes)
      → as_map (load heap p) ≡ some m
      → hget_at (as_map (load (store_field heap p (MapValue.set field value m)) q)) other ≡ (
          if same_value p q && (field =? other)
          then returned value
          else hget_at (as_map (load heap q)) other)
  unfolding load store_field hget_at MapValue.get MapValue.set as_map
  hget_at-hset_at heap none q m field other value h = cc
  hget_at-hset_at heap (some a) none m field other value h = ground arith
  hget_at-hset_at heap (some a) (some b) m field other value h = ground (
    arith,
    as_map-some (get_elem? heap a) h,
    get_elem?-set heap a b (map_value (insert field value m)) (map_value m),
    find-insert field other value m,
  )

  -- `hset` succeeds exactly when the key leads to a map, and otherwise leaves every value alone. When it succeeds, the
  -- field reads as the new text under each key that shares the map, and nothing else that `hget` can see changes.
  pub hset-hget :
      (key field value : Bytes) (s : Slot) (heap : Heap D)
      → let p : ValuePtr = pointer_of (find key s.items) in
        let after : Heap D × Bool = hset key field value s heap in
        ((after.1 ≡ false) ↔ (as_map (load heap p) ≡ none))
        × ((after.1 ≡ false → after.0 ≡ heap)
            × ((other_key other : Bytes)
                → hget other_key other s after.0 ≡ (
                    if after.1
                      && (same_value p (pointer_of (find other_key s.items)) && (field =? other))
                    then returned value
                    else hget other_key other s heap)))
  unfolding hset hget hset_at
  hset-hget key field value s heap =
      let p : ValuePtr = pointer_of (find key s.items) in
      elim (Option-cases (as_map (load heap p))) [
        | inl e ↦ (
          ((λ _. e), (λ _. ground arith)),
          ((λ _. ground arith), λ other_key other. ground arith),
        )
        | inr (m, e) ↦ (
          ((λ failed. ground arith), (λ missing. ground arith)),
          (
            (λ failed. ground arith),
            (λ other_key other. ground (
              arith,
              hget_at-hset_at heap p (pointer_of (find other_key s.items)) m field other value e,
            )),
          ),
        )
      ]
