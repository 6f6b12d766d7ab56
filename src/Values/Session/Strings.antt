-- ===== src/Values/Session/Strings.antt =====
-- Which values the commands can make.
use fast_db.Prelude.{
  ℕ, zero, suc, ℤ, false, List, [], ◌∷◌, Bytes, codes, Option, none, some, length, get_elem?, All,
  All-append, ◌≡◌, refl, leb, bytes_beq, inl, inr, Option-cases,
}
use fast_db.Prelude.Stoi.{Stoi, number, invalid_argument, out_of_range, stoi}
use fast_db.Prelude.Assoc.{find}
use fast_db.Values.Value.{Value, string_value}
use fast_db.Values.Slot.{Slot, Heap, ValuePtr, Lookup, pointer_of, as_map, load, hset_at, hget_at}
use fast_db.Values.Slot
use fast_db.Values.Session.{
  World, Handler, on_set, on_get, on_del, on_hset, on_hget, on_expire, replied, default_of,
  put_default, type_reply, hget_reply, expire_number, run_handler, dispatch, process_command,
  find_handler, empty_world, hset_error, null_reply,
}
use fast_db.Values.Session.Validity.{After, if-After, with_word-After, Reaches, Reaches_inv}

module _ {D : Type 0} where
  abbrev NoMap : Value D → Type 0
  NoMap v = as_map (some v) ≡ none

  -- No value is a map.
  abbrev pub NoMaps : World D → Type 0
  NoMaps w = All NoMap w.heap

  load_none : (heap : Heap D) (a : ℕ) → All NoMap heap → as_map (get_elem? heap a) ≡ none
  unfolding as_map
  load_none [] a h = refl
  load_none (v ∷ heap) zero (h, rest) = h
  load_none (v ∷ heap) (suc a) (h, rest) = load_none heap a rest

  as_map-load : (heap : Heap D) (p : ValuePtr) → All NoMap heap → as_map (load heap p) ≡ none
  unfolding load
  as_map-load heap none h = unfold as_map in refl
  as_map-load heap (some a) h = load_none heap a h

  hset_none :
      (key field value : Bytes) (s : Slot) (heap : Heap D)
      → All NoMap heap
      → Slot.hset key field value s heap ≡ (heap, false)
  unfolding Slot.hset
  hset_none key field value s heap h =
      rw (as_map-load heap (pointer_of (find key s.items)) h) (unfold hset_at in refl)

  hget_none :
      (key field : Bytes) (s : Slot) (heap : Heap D)
      → All NoMap heap
      → Slot.hget key field s heap ≡ Lookup.returned []
  unfolding Slot.hget
  hget_none key field s heap h =
      rw (as_map-load heap (pointer_of (find key s.items)) h) (unfold hget_at in refl)

  type_reply-NoMaps : (w : World D) (p : ValuePtr) → NoMaps w → After NoMaps (type_reply w p)
  unfolding type_reply
  type_reply-NoMaps w none h = h
  type_reply-NoMaps w (some a) h = elim (Option-cases (get_elem? w.heap a)) [
    | inl e ↦ rw (e, type_reply) tt
    | inr (x, e) ↦ rw (e, type_reply) h
  ]

  hget_reply-NoMaps : (w : World D) (r : Lookup) → NoMaps w → After NoMaps (hget_reply w r)
  unfolding hget_reply
  hget_reply-NoMaps w Lookup.out_of_range h = h
  hget_reply-NoMaps w (Lookup.returned []) h = h
  hget_reply-NoMaps w (Lookup.returned (c ∷ value)) h = h

  expire_number-NoMaps :
      (now : ℤ) (key : Bytes) (n : Stoi) (w : World D)
      → NoMaps w
      → After NoMaps (expire_number now key n w)
  unfolding expire_number put_default
  expire_number-NoMaps now key (number ttl) w h = h
  expire_number-NoMaps now key invalid_argument w h = h
  expire_number-NoMaps now key out_of_range w h = h

  run_handler-NoMaps :
      (now : ℤ) (h : Handler) (command : List Bytes) (w : World D)
      → NoMaps w
      → After NoMaps (run_handler now h command w)
  unfolding run_handler put_default
  run_handler-NoMaps now on_set command w h = with_word-After NoMaps command 1 _ λ key.
      with_word-After NoMaps command 2 _
        λ value. All-append NoMap w.heap (string_value value ∷ []) h (unfold as_map in refl, tt)
  run_handler-NoMaps now on_get command w h =
      with_word-After NoMaps command 1 _
        λ key. type_reply-NoMaps _ (Slot.get_value now key (default_of w)).0 h
  run_handler-NoMaps now on_del command w h = with_word-After NoMaps command 1 _ λ key. h
  run_handler-NoMaps now on_hset command w h = with_word-After NoMaps command 1 _ λ key.
      with_word-After NoMaps command 2 _ λ field.
        with_word-After NoMaps command 3 _
          λ value. rw (hset_none key field value (default_of w) w.heap h) h
  run_handler-NoMaps now on_hget command w h = with_word-After NoMaps command 1 _ λ key.
      with_word-After NoMaps command 2 _
        λ field. hget_reply-NoMaps _ (Slot.hget key field (default_of w) w.heap) h
  run_handler-NoMaps now on_expire command w h =
      with_word-After NoMaps command 1 _
        λ key. with_word-After NoMaps command 2 _ λ ttl. expire_number-NoMaps now key (stoi ttl) w h

  dispatch-NoMaps :
      (now : ℤ) (h : Option Handler) (command : List Bytes) (w : World D)
      → NoMaps w
      → After NoMaps (dispatch now h command w)
  unfolding dispatch
  dispatch-NoMaps now none command w h = h
  dispatch-NoMaps now (some g) command w h =
      if-After NoMaps (leb 2 (length command)) _ _ (run_handler-NoMaps now g command w h) h

  process_command-NoMaps :
      (now : ℤ) (command : List Bytes) (w : World D)
      → NoMaps w
      → After NoMaps (process_command now command w)
  unfolding process_command
  process_command-NoMaps now [] w h = h
  process_command-NoMaps now (cmd ∷ words) w h =
      dispatch-NoMaps now (find_handler cmd) (cmd ∷ words) w h

  pub Reaches-NoMaps : {w : World D} → Reaches empty_world w → NoMaps w
  Reaches-NoMaps r = Reaches_inv NoMaps process_command-NoMaps tt r

  -- In every world that the commands lead to from the empty server, HSET is answered by its error and HGET by null, for
  -- every key, field and value, and no value changes: no command makes a map, which HSET wants to find.
  pub hset_hget_never :
      {w : World D} (now : ℤ) (key field value : Bytes)
      → Reaches empty_world w
      → (process_command now (codes "HSET" ∷ key ∷ field ∷ value ∷ []) w
          ≡ replied hset_error (put_default (default_of w) w))
        × (process_command now (codes "HGET" ∷ key ∷ field ∷ []) w
            ≡ replied null_reply (put_default (default_of w) w))
  unfolding process_command dispatch find_handler run_handler bytes_beq put_default hget_reply
  hset_hget_never {w} now key field value r = (
    rw (hset_none key field value (default_of w) w.heap (Reaches-NoMaps r)),
    rw (hget_none key field (default_of w) w.heap (Reaches-NoMaps r)),
  )
