-- ===== src/Values/Session/Validity.antt =====
-- The invariant of the server's state: every pointer in the slot that sessions use leads to a value.
use fast_db.Prelude.{
  ℕ, ◌+◌, ◌<◌, ℤ, Bool, true, false, List, [], ◌∷◌, ◌++◌, Bytes, Option, none, some, length,
  length-append, length-set, get_elem?, ◌≡◌, refl, arith, if◌then◌else◌, leb, bytes_beq_iff,
  bytes_eq, inl, inr, Option-cases,
}
use mathlib.Core.Path.{subst}
use fast_db.Prelude.Assoc.{Assoc, find, insert, find-insert, find-erase}
use fast_db.Prelude.Stoi.{Stoi, number, invalid_argument, out_of_range, stoi}
use fast_db.Values.Value.{string_value}
use fast_db.Values.Slot.{
  Slot, Heap, ValuePtr, Lookup, pointer_of, empty_slot, hset_at, as_map, load, store_field,
}
use fast_db.Values.Slot
use fast_db.Values.Session.{
  World, Handler, on_set, on_get, on_del, on_hset, on_hget, on_expire, Outcome, Exception, replied,
  threw, out_of_bounds, default_slot, slot_of, default_of, put_default, type_reply, hget_reply,
  expire_number, with_word, run_handler, dispatch, process_command, find_handler, empty_world,
}

-- Every pointer that a slot holds is below `n`.
abbrev pub PointsBelow : ℕ → Slot → Type 0
PointsBelow n s = (key : Bytes) (a : ℕ) → pointer_of (find key s.items) ≡ some a → a < n

module _ (n : ℕ) (s : Slot) (key : Bytes) (h : PointsBelow n s) where
  set_value-PointsBelow : PointsBelow (n + 1) (Slot.set_value key (some n) s)
  unfolding Slot.set_value pointer_of
  set_value-PointsBelow q a e = ground (arith, find-insert key q (some n) s.items, h q a)

  remove-PointsBelow : PointsBelow n (Slot.remove key s)
  unfolding Slot.remove pointer_of
  remove-PointsBelow q a e = ground (arith, find-erase key q s.items, h q a)

  pub get_value-PointsBelow : (now : ℤ) → PointsBelow n (Slot.get_value now key s).1
  unfolding Slot.get_value pointer_of
  get_value-PointsBelow now q a e = ground (arith, find-erase key q s.items, h q a)

  pub get_value-below : (now : ℤ) (a : ℕ) → (Slot.get_value now key s).0 ≡ some a → a < n
  unfolding Slot.get_value pointer_of
  get_value-below now a e = ground (arith, h key a)

  set_expiration-PointsBelow : (now ttl : ℤ) → PointsBelow n (Slot.set_expiration now key ttl s)
  unfolding Slot.set_expiration
  set_expiration-PointsBelow now ttl = h

module _ {D : Type 0} where
  pub record IsValid (w : World D) : Type 0 where
    pub pointed : PointsBelow (length w.heap) (default_of w)

  -- What holds of the world after a command; nothing is claimed of undefined behaviour.
  abbrev pub After : (World D → Type 0) → Outcome D → Type 0
  After P (replied reply w) = P w
  After P (threw e w) = P w
  After P out_of_bounds = Unit

  pub find_self :
      (s : Slot) (w : World D) → find default_slot (insert default_slot s w.slots) ≡ some s
  find_self s w = ground (
    arith,
    find-insert default_slot default_slot s w.slots,
    bytes_beq_iff default_slot default_slot,
  )

  pub IsValid-of :
      (heap : Heap D) (s : Slot) (w : World D)
      → PointsBelow (length heap) s
      → IsValid (record { heap = heap; slots = insert default_slot s w.slots })
  unfolding default_of slot_of
  IsValid-of heap s w h = record { pointed = rw (find_self s w) h }

  type_reply-IsValid : (w : World D) (p : ValuePtr) → IsValid w → After IsValid (type_reply w p)
  unfolding type_reply
  type_reply-IsValid w none v = v
  type_reply-IsValid w (some a) v = elim (Option-cases (get_elem? w.heap a)) [
    | inl e ↦ rw (e, type_reply) tt
    | inr (x, e) ↦ rw (e, type_reply) v
  ]

  hget_reply-IsValid : (w : World D) (r : Lookup) → IsValid w → After IsValid (hget_reply w r)
  unfolding hget_reply
  hget_reply-IsValid w Lookup.out_of_range v = v
  hget_reply-IsValid w (Lookup.returned []) v = v
  hget_reply-IsValid w (Lookup.returned (c ∷ value)) v = v

  length-hset_at :
      (heap : Heap D) (p : ValuePtr) (m : Option (Assoc Bytes Bytes)) (field value : Bytes)
      → length (hset_at heap p m field value).0 ≡ length heap
  unfolding hset_at store_field
  length-hset_at heap p none field value = refl
  length-hset_at heap none (some m) field value = refl
  length-hset_at heap (some a) (some m) field value = length-set heap a _

  length-hset :
      (key field value : Bytes) (s : Slot) (heap : Heap D)
      → length (Slot.hset key field value s heap).0 ≡ length heap
  unfolding Slot.hset
  length-hset key field value s heap =
      length-hset_at heap _ (as_map (load heap (pointer_of (find key s.items)))) field value

  pub with_word-After :
      (P : World D → Type 0) (command : List Bytes) (i : ℕ) (k : Bytes → Outcome D)
      → ((word : Bytes) → After P (k word))
      → After P (with_word command i k)
  unfolding with_word
  with_word-After P command i k h = elim (Option-cases (get_elem? command i)) [
    | inl e ↦ rw (e, with_word) tt
    | inr (x, e) ↦ rw (e, with_word) (h x)
  ]

  expire_number-IsValid :
      (now : ℤ) (key : Bytes) (n : Stoi) (w : World D)
      → IsValid w
      → After IsValid (expire_number now key n w)
  unfolding expire_number
  expire_number-IsValid now key (number ttl) w v =
      unfold put_default in
      IsValid-of w.heap _ w
        (set_expiration-PointsBelow (length w.heap) (default_of w) key v.pointed now ttl)
  expire_number-IsValid now key invalid_argument w v = v
  expire_number-IsValid now key out_of_range w v = v

  run_handler-IsValid :
      (now : ℤ) (h : Handler) (command : List Bytes) (w : World D)
      → IsValid w
      → After IsValid (run_handler now h command w)
  unfolding run_handler put_default
  run_handler-IsValid now on_set command w v = with_word-After IsValid command 1 _ λ key.
      with_word-After IsValid command 2 _ λ value.
        IsValid-of (w.heap ++ string_value value ∷ []) _ w (
          rw (length-append w.heap (string_value value ∷ []))
            (set_value-PointsBelow (length w.heap) (default_of w) key v.pointed))
  run_handler-IsValid now on_get command w v = with_word-After IsValid command 1 _ λ key.
      type_reply-IsValid _ (Slot.get_value now key (default_of w)).0 (
        IsValid-of w.heap _ w
          (get_value-PointsBelow (length w.heap) (default_of w) key v.pointed now))
  run_handler-IsValid now on_del command w v =
      with_word-After IsValid command 1 _ λ key.
        IsValid-of w.heap _ w (remove-PointsBelow (length w.heap) (default_of w) key v.pointed)
  run_handler-IsValid now on_hset command w v = with_word-After IsValid command 1 _ λ key.
      with_word-After IsValid command 2 _ λ field. with_word-After IsValid command 3 _ λ value.
        IsValid-of (Slot.hset key field value (default_of w) w.heap).0 _ w
          (rw (length-hset key field value (default_of w) w.heap) v.pointed)
  run_handler-IsValid now on_hget command w v = with_word-After IsValid command 1 _ λ key.
      with_word-After IsValid command 2 _ λ field.
        hget_reply-IsValid _ (Slot.hget key field (default_of w) w.heap)
          (IsValid-of w.heap _ w v.pointed)
  run_handler-IsValid now on_expire command w v =
      with_word-After IsValid command 1 _ λ key.
        with_word-After IsValid command 2 _ λ ttl. expire_number-IsValid now key (stoi ttl) w v

  pub if-After :
      (P : World D → Type 0) (b : Bool) (x y : Outcome D)
      → After P x
      → After P y
      → After P (if b then x else y)
  if-After P true x y hx hy = hx
  if-After P false x y hx hy = hy

  dispatch-IsValid :
      (now : ℤ) (h : Option Handler) (command : List Bytes) (w : World D)
      → IsValid w
      → After IsValid (dispatch now h command w)
  unfolding dispatch
  dispatch-IsValid now none command w v = v
  dispatch-IsValid now (some h) command w v =
      if-After IsValid (leb 2 (length command)) _ _ (run_handler-IsValid now h command w v) v

  pub empty_world-IsValid : IsValid (empty_world {D = D})
  unfolding default_of slot_of find pointer_of
  empty_world-IsValid = record { pointed = λ q a e. ground arith }

  -- From a world in which no pointer dangles, every command, at any time and with any words, leads to such a world, also
  -- where it throws. Of an index past the words nothing is said.
  pub process_command-IsValid :
      (now : ℤ) (command : List Bytes) (w : World D)
      → IsValid w
      → After IsValid (process_command now command w)
  process_command-IsValid now [] w v = unfold process_command in v
  process_command-IsValid now (cmd ∷ words) w v =
      unfold process_command in dispatch-IsValid now (find_handler cmd) (cmd ∷ words) w v

  -- The worlds that sessions can lead to, command by command and at any times.
  pub data Reaches (w : World D) : World D → Type 0 where
    here : Reaches w w
    answered :
        {v u : World D} {reply : Bytes} (now : ℤ) (command : List Bytes)
        → Reaches w v
        → process_command now command v ≡ replied reply u
        → Reaches w u
    failed :
        {v u : World D} {e : Exception} (now : ℤ) (command : List Bytes)
        → Reaches w v
        → process_command now command v ≡ threw e u
        → Reaches w u

  -- An invariant of the commands holds in every world that they lead to.
  pub Reaches_inv :
      (P : World D → Type 0)
      → ((now : ℤ) (command : List Bytes) (v : World D)
          → P v
          → After P (process_command now command v))
      → {w u : World D} → P w
      → Reaches w u
      → P u
  Reaches_inv P keep p here = p
  Reaches_inv P keep p (answered {v} now command r e) =
      subst (After P) e (keep now command v (Reaches_inv P keep p r))
  Reaches_inv P keep p (failed {v} now command r e) =
      subst (After P) e (keep now command v (Reaches_inv P keep p r))
