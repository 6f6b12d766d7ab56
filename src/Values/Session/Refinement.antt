-- ===== src/Values/Session/Refinement.antt =====
-- That the server of src/db/values.h answers its commands as the store promises.
use fast_db.Prelude.{
  ℕ, ℤ, ◌+ℤ◌, Bool, true, false, List, [], ◌∷◌, ◌++◌, Bytes, Option, none, some, ◌=?◌,
  if◌then◌else◌, bytes_eq, bytes_beq, length, get_elem?, get_elem?-last, get_elem?-more, ◌≡◌, refl,
  arith, inl, inr, Bool-cases, Option-cases,
}
use fast_db.Prelude.Assoc.{find, insert, find-insert, find-erase}
use fast_db.Prelude.Decimal.{to_string_nat}
use fast_db.Prelude.Stoi.{Stoi, number, invalid_argument, out_of_range, stoi}
use fast_db.Values.Value.{string_value, type_name}
use fast_db.Values.Slot.{
  Slot, Heap, ValuePtr, Lookup, pointer_of, is_expired, seconds, load, as_map, hset_at, hget_at,
}
use fast_db.Values.Slot
use fast_db.Values.Session.{
  World, Outcome, replied, threw, out_of_bounds, default_slot, slot_of, default_of, put_default,
  type_reply, hget_reply, expire_number, with_word, bulk_reply, find_handler, dispatch, run_handler,
  process_command, null_reply, empty_world,
}
use fast_db.Values.Session.Validity.{find_self}
use fast_db.Values.Session.Contract.{
  Store, Command, set_command, get_command, del_command, hset_command, hget_command, expire_command,
  words_of, Answer, sent, ended, undefined, is_late, remember, forget, limit, promise_get,
  promise_expire, promise, promises, empty_store, continue_with, answers, string_reply,
}

unfoldable points : ValuePtr → Bool
points none = false
points (some a) = true

is_expired-is_late : (now : ℤ) (d : Option ℤ) → is_expired now d ≡ is_late now d
unfolding is_expired is_late
is_expired-is_late now none = refl
is_expired-is_late now (some deadline) = refl

module _ {D : Type 0} where
  -- The value behind a pointer is a string.
  abbrev IsString : Heap D → ℕ → Type 0
  IsString heap a = (text : Bytes) × (get_elem? heap a ≡ some (string_value text))

  -- A heap and a slot hold what the store says.
  record Holds (heap : Heap D) (s : Slot) (st : Store) : Type 0 where
    pub strings : (q : Bytes) (a : ℕ) → pointer_of (find q s.items) ≡ some a → IsString heap a
    pub stored : (q : Bytes) → points (pointer_of (find q s.items)) ≡ st.present q
    pub limited : (q : Bytes) → find q s.expiration_times ≡ st.deadline q

  abbrev Implements : World D → Store → Type 0
  Implements w st = Holds w.heap (default_of w) st

  Implements-of :
      (heap : Heap D) (s : Slot) (w : World D) (st : Store)
      → Holds heap s st
      → Implements (record { heap = heap; slots = insert default_slot s w.slots }) st
  unfolding default_of slot_of
  Implements-of heap s w st h = rw (find_self s w) h

  Holds-set_value :
      (heap : Heap D) (s : Slot) (st : Store) (key value : Bytes)
      → Holds heap s st
      → Holds
          (heap ++ string_value value ∷ [])
          (Slot.set_value key (some (length heap)) s)
          (remember key st)
  unfolding Slot.set_value pointer_of points remember
  Holds-set_value heap s st key value h = record {
    strings = λ q a e. elim (Bool-cases (key =? q)) [
      | inl same ↦
          let place : a ≡ length heap =
            ground (arith, find-insert key q (some (length heap)) s.items, e, same) in
          (value, rw place (get_elem?-last heap (string_value value)))
      | inr other ↦
          let old : pointer_of (find q s.items) ≡ some a =
            ground (arith, find-insert key q (some (length heap)) s.items, e, other) in
          let (text, there) = h.strings q a old in
          (text, get_elem?-more heap (string_value value ∷ []) a (string_value text) there)
    ];
    stored = λ q. ground (arith, find-insert key q (some (length heap)) s.items, h.stored q);
    limited = h.limited;
  }

  Holds-remove :
      (heap : Heap D) (s : Slot) (st : Store) (key : Bytes)
      → Holds heap s st
      → Holds heap (Slot.remove key s) (forget key st)
  unfolding Slot.remove pointer_of points forget
  Holds-remove heap s st key h = record {
    strings = λ q a e. ground (arith, find-erase key q s.items, h.strings q a);
    stored = λ q. ground (arith, find-erase key q s.items, h.stored q);
    limited = λ q. ground (arith, find-erase key q s.expiration_times, h.limited q);
  }

  Holds-set_expiration :
      (heap : Heap D) (s : Slot) (st : Store) (key : Bytes) (now ttl : ℤ)
      → Holds heap s st
      → Holds heap (Slot.set_expiration now key ttl s) (limit key (now +ℤ seconds ttl) st)
  unfolding Slot.set_expiration limit
  Holds-set_expiration heap s st key now ttl h = record {
    strings = h.strings;
    stored = h.stored;
    limited =
        λ q. ground (arith, find-insert key q (now +ℤ seconds ttl) s.expiration_times, h.limited q);
  }

  no_map :
      (heap : Heap D) (s : Slot) (st : Store) (key : Bytes)
      → Holds heap s st
      → as_map (load heap (pointer_of (find key s.items))) ≡ none
  unfolding load as_map
  no_map heap s st key h = elim (Option-cases (pointer_of (find key s.items))) [
    | inl e ↦ rw e refl
    | inr (a, e) ↦ let (text, there) = h.strings key a e in rw (e, there) refl
  ]

  -- The outcome of a command gives the promised answer and leaves the promised store.
  abbrev Meets : Outcome D → Answer × Store → Type 0
  Meets (replied reply w) (sent promised, st) = (reply ≡ promised) × Implements w st
  Meets (threw e w) (ended promised, st) = (e ≡ promised) × Implements w st
  Meets _ _ = ⊥

  type_reply-Meets :
      (w : World D) (p : ValuePtr) (st : Store)
      → Implements w st
      → ((a : ℕ) → p ≡ some a → IsString w.heap a)
      → Meets (type_reply w p) (sent (if points p then string_reply else null_reply), st)
  unfolding type_reply points type_name bulk_reply to_string_nat
  type_reply-Meets w none st h strings = (refl, h)
  type_reply-Meets w (some a) st h strings =
      let (text, there) = strings a refl in rw (there, type_reply) (refl, h)

  get-Meets :
      (now : ℤ) (key : Bytes) (w : World D) (st : Store)
      → Implements w st
      → Meets
          (type_reply
            (put_default (Slot.get_value now key (default_of w)).1 w)
            (Slot.get_value now key (default_of w)).0)
          (promise_get (is_late now (st.deadline key)) key st)
  unfolding Slot.get_value Slot.remove promise_get is_expired put_default points
  get-Meets now key w st h =
      let s : Slot = default_of w in
      let same : is_expired now (find key s.expiration_times) ≡ is_late now (st.deadline key) =
        rw (h.limited key) (is_expired-is_late now (st.deadline key)) in
      elim (Bool-cases (is_late now (st.deadline key))) [
        | inl late ↦
            rw (same, late)
              (type_reply-Meets _ none (forget key st)
                (Implements-of w.heap (Slot.remove key s) w (forget key st)
                  (Holds-remove w.heap s st key h))
                (λ a e. cc))
        | inr early ↦
            rw (same, early, ← (h.stored key))
              (type_reply-Meets _ (pointer_of (find key s.items)) st (Implements-of w.heap s w st h)
                (h.strings key))
      ]

  expire-Meets :
      (now : ℤ) (key : Bytes) (n : Stoi) (w : World D) (st : Store)
      → Implements w st
      → Meets (expire_number now key n w) (promise_expire now key n st)
  unfolding expire_number promise_expire put_default
  expire-Meets now key (number ttl) w st h = (
    refl,
    Implements-of w.heap _ w _ (Holds-set_expiration w.heap (default_of w) st key now ttl h),
  )
  expire-Meets now key invalid_argument w st h = (refl, h)
  expire-Meets now key out_of_range w st h = (refl, h)

  process_command-Meets :
      (now : ℤ) (c : Command) (w : World D) (st : Store)
      → Implements w st
      → Meets (process_command now (words_of c) w) (promise now c st)
  unfolding process_command dispatch find_handler run_handler with_word words_of promise bytes_beq
      put_default hget_reply Slot.hset Slot.hget hset_at hget_at
  process_command-Meets now (set_command key value) w st h =
      (refl, Implements-of _ _ w _ (Holds-set_value w.heap (default_of w) st key value h))
  process_command-Meets now (get_command key) w st h = get-Meets now key w st h
  process_command-Meets now (del_command key) w st h =
      (refl, Implements-of w.heap _ w _ (Holds-remove w.heap (default_of w) st key h))
  process_command-Meets now (hset_command key field value) w st h =
      rw (no_map w.heap (default_of w) st key h) (refl, Implements-of w.heap _ w _ h)
  process_command-Meets now (hget_command key field) w st h =
      rw (no_map w.heap (default_of w) st key h) (refl, Implements-of w.heap _ w _ h)
  process_command-Meets now (expire_command key ttl) w st h = expire-Meets now key (stoi ttl) w st h

  continue_with-Meets :
      (outcome : Outcome D) (p : Answer × Store) (rest : World D → List Answer)
      (promised : List Answer)
      → Meets outcome p
      → ((w : World D) → Implements w p.1 → rest w ≡ promised)
      → continue_with outcome rest ≡ p.0 ∷ promised
  unfolding continue_with
  continue_with-Meets (replied reply w) (sent r, st) rest promised (e, h) go = rw (e, go w h) refl
  continue_with-Meets (threw x w) (ended y, st) rest promised (e, h) go = rw (e, go w h) refl
  continue_with-Meets (replied reply w) (ended y, st) rest promised h go = absurd h
  continue_with-Meets (replied reply w) (undefined, st) rest promised h go = absurd h
  continue_with-Meets (threw x w) (sent r, st) rest promised h go = absurd h
  continue_with-Meets (threw x w) (undefined, st) rest promised h go = absurd h
  continue_with-Meets out_of_bounds p rest promised h go = absurd h

  answers_lem :
      (commands : List (ℤ × Command)) (w : World D) (st : Store)
      → Implements w st
      → answers commands w ≡ promises commands st
  unfolding answers promises
  answers_lem [] w st h = refl
  answers_lem ((now, c) ∷ commands) w st h =
      continue_with-Meets _ (promise now c st) (answers commands)
        (promises commands (promise now c st).1) (process_command-Meets now c w st h)
        (λ next holds. answers_lem commands next (promise now c st).1 holds)

  empty_world-Implements : Implements empty_world empty_store
  unfolding default_of slot_of find pointer_of points
  empty_world-Implements = record { strings = λ q a e. cc; stored = λ q. refl; limited = λ q. refl }

-- The empty server answers every sequence of commands with all their words, from any sessions and at any times, as the store
-- promises, which keeps no values and no addresses. SET makes a key present and keeps its deadline; GET sends the word
-- "String" for a present key and null for an absent one, and for one whose deadline is past it sends null and forgets key
-- and deadline; DEL forgets both; EXPIRE sets the deadline, of an absent key too, or throws where `std::stoi` does; HSET
-- sends its error and HGET null, for every key.
pub answers-promises :
    (D : Type 0) (commands : List (ℤ × Command))
    → answers commands (empty_world {D = D}) ≡ promises commands empty_store
answers-promises D commands = answers_lem commands empty_world empty_store empty_world-Implements
