-- ===== src/Values/Session/Replies.antt =====
-- What a command shows of the commands before it.
use fast_db.Prelude.{
  ℕ, ℤ, Bool, true, false, List, [], ◌∷◌, ◌++◌, Bytes, codes, Option, none, some, length, get_elem?,
  ◌≡◌, refl, arith, if◌then◌else◌, bytes_beq, bytes_beq_iff, bytes_eq,
}
use fast_db.Prelude.Assoc.{find, insert, find-insert}
use fast_db.Prelude.Decimal.{to_string_nat}
use fast_db.Values.Value.{string_value, type_name}
use fast_db.Values.Slot.{Slot, is_expired, pointer_of}
use fast_db.Values.Slot
use fast_db.Values.Session.{
  World, Outcome, replied, default_slot, default_of, slot_of, put_default, type_reply, ok_reply,
  null_reply, bulk_reply, process_command, find_handler, dispatch, run_handler,
}
use fast_db.Values.Session.Validity.{find_self}

get_elem?-last {ℓ} :
    {A : Type ℓ} (xs : List A) (a : A) → get_elem? (xs ++ a ∷ []) (length xs) ≡ some a
get_elem?-last [] a = refl
get_elem?-last (x ∷ xs) a = get_elem?-last xs a

get_value-set_value :
    (now : ℤ) (key : Bytes) (n : ℕ) (s : Slot)
    → (Slot.get_value now key (Slot.set_value key (some n) s)).0
      ≡ (if is_expired now (find key s.expiration_times) then none else some n)
unfolding Slot.get_value Slot.set_value pointer_of
get_value-set_value now key n s =
    ground (arith, find-insert key key (some n) s.items, bytes_beq_iff key key)

module _ {D : Type 0} where
  -- The world that `SET` leaves behind.
  unfoldable pub after_set : Bytes → Bytes → World D → World D
  after_set key value w = record {
    heap = w.heap ++ string_value value ∷ [];
    slots = insert default_slot (Slot.set_value key (some (length w.heap)) (default_of w)) w.slots;
  }

  process_set :
      (now : ℤ) (key value : Bytes) (w : World D)
      → process_command now (codes "SET" ∷ key ∷ value ∷ []) w
        ≡ replied ok_reply (after_set key value w)
  unfolding process_command dispatch find_handler run_handler bytes_beq after_set
  process_set now key value w = refl

  -- Answers of a command without the world behind it.
  abbrev pub reply_of : Outcome D → Option Bytes
  reply_of (replied reply w) = some reply
  reply_of _ = none

  default_of-after_set :
      (key value : Bytes) (w : World D)
      → default_of (after_set key value w)
        ≡ Slot.set_value key (some (length w.heap)) (default_of w)
  unfolding default_of after_set slot_of
  default_of-after_set key value w =
      rw (
        find_self (Slot.set_value key (some (length w.heap)) (unfold default_of in default_of w)) w)

  process_get :
      (now : ℤ) (key : Bytes) (w : World D)
      → process_command now (codes "GET" ∷ key ∷ []) w
        ≡ type_reply
            (put_default (Slot.get_value now key (default_of w)).1 w)
            (Slot.get_value now key (default_of w)).0
  unfolding process_command dispatch find_handler run_handler bytes_beq
  process_get now key w = refl

  type_reply_string :
      (w : World D) (a : ℕ) (value : Bytes)
      → get_elem? w.heap a ≡ some (string_value value)
      → type_reply w (some a) ≡ replied (codes "$6\r\nString\r\n") w
  unfolding type_reply type_name bulk_reply to_string_nat
  type_reply_string w a value e = rw (e, type_reply)

  reply_of-type_reply :
      (w : World D) (a : ℕ) (value : Bytes) (late : Bool)
      → get_elem? w.heap a ≡ some (string_value value)
      → reply_of (type_reply w (if late then none else some a))
        ≡ some (if late then null_reply else codes "$6\r\nString\r\n")
  reply_of-type_reply w a value true e = unfold type_reply in refl
  reply_of-type_reply w a value false e = rw (type_reply_string w a value e)

  -- After `SET` has stored a value, `GET` answers with the word "String" and never with the value, if the key has no
  -- deadline in the past; if it has one, which `SET` does not clear, the answer is null although the value was just
  -- stored.
  pub get-set :
      (earlier now : ℤ) (key value : Bytes) (w : World D)
      → (process_command earlier (codes "SET" ∷ key ∷ value ∷ []) w
          ≡ replied ok_reply (after_set key value w))
        × (reply_of (process_command now (codes "GET" ∷ key ∷ []) (after_set key value w))
            ≡ some (
                if is_expired now (find key (default_of w).expiration_times)
                then null_reply
                else codes "$6\r\nString\r\n"))
  get-set earlier now key value w =
      let s = default_of w in
      let n = length w.heap in
      (
        process_set earlier key value w,
        rw
            (
              process_get now key (after_set key value w),
              default_of-after_set key value w,
              get_value-set_value now key n s,
            )
            (reply_of-type_reply _ n value (is_expired now (find key s.expiration_times))
              (unfold put_default after_set in get_elem?-last w.heap (string_value value))),
      )
