-- ===== src/Values/Slot/Live.antt =====
-- A slot as a map whose entries pass away: what a reader sees of it at a time.
use fast_db.Prelude.{
  ℤ, ◌≤ℤ◌, ◌+ℤ◌, ltb_ℤ, true, false, Bytes, Option, none, some, if◌then◌else◌, ◌=?◌, bytes_eq,
  bytes_beq_iff, ◌≡◌, arith,
}
use fast_db.Prelude.Assoc.{find, erase, find-insert, find-erase}
use fast_db.Values.Slot.{
  Slot, ValuePtr, set_value, is_expired, pointer_of, get_value, remove, seconds, set_expiration,
}

-- The abstract content of a slot: at a time, the pointer that a key stands for, or null.
abbrev pub View : Type 0
View = ℤ → Bytes → ValuePtr

unfoldable pub view : Slot → View
unfolding is_expired pointer_of
view s now key =
    if is_expired now (find key s.expiration_times) then none else pointer_of (find key s.items)

is_expired_later :
    (now later : ℤ) (d : Option ℤ)
    → now ≤ℤ later
    → is_expired now d ≡ true
    → is_expired later d ≡ true
unfolding is_expired
is_expired_later now later none h e = e
is_expired_later now later (some d) h e = ground arith

-- `get_value` returns what the view shows at the time of the call. If nothing is written in between, every key reads at
-- every later time as it would have read without the call. The purge shows in a write: if the entry was expired, a pointer
-- that is set under the key after the call stays for good, since the deadline is gone; without the call, it would be null
-- at once. If the entry was not expired, the slot is left as it is.
pub get_value-view :
    (now later : ℤ) (key q : Bytes) (s : Slot)
    → now ≤ℤ later
    → ((get_value now key s).0 ≡ view s now key)
      × ((view (get_value now key s).1 later q ≡ view s later q)
          × ((p : ValuePtr)
              → (is_expired now (find key s.expiration_times) ≡ true
                  → (view (set_value key p (get_value now key s).1) later key ≡ p)
                    × (view (set_value key p s) later key ≡ none))
                × (is_expired now (find key s.expiration_times) ≡ false
                    → (get_value now key s).1 ≡ s)))
unfolding get_value view set_value
get_value-view now later key q s h = (
  ground arith,
  (
    ground (
      arith,
      find-erase key q s.items,
      find-erase key q s.expiration_times,
      bytes_beq_iff key q,
      is_expired_later now later (find key s.expiration_times) h,
    ),
    (λ p. (
      (λ old. (
        ground (
          arith,
          find-insert key key p (erase key s.items),
          find-erase key key s.expiration_times,
          bytes_beq_iff key key,
        ),
        rw (is_expired_later now later (find key s.expiration_times) h old),
      )),
      (λ young. rw young),
    )),
  ),
)

-- A removed key reads as null at every time, and no other key changes.
pub remove-view :
    (now : ℤ) (key q : Bytes) (s : Slot)
    → view (remove key s) now q ≡ (if key =? q then none else view s now q)
unfolding remove view
remove-view now key q s =
    ground (arith, find-erase key q s.items, find-erase key q s.expiration_times)

-- `set_expiration` gives the key the new deadline in place of any old one: it reads as its pointer up to the deadline
-- and as null afterwards, and no other key changes.
pub set_expiration-view :
    (now later ttl : ℤ) (key q : Bytes) (s : Slot)
    → view (set_expiration now key ttl s) later q ≡ (
        if key =? q
        then (if ltb_ℤ (now +ℤ seconds ttl) later then none else pointer_of (find key s.items))
        else view s later q)
unfolding set_expiration view
set_expiration-view now later ttl key q s =
    ground (arith, find-insert key q (now +ℤ seconds ttl) s.expiration_times, bytes_beq_iff key q)

-- `set_value` keeps the key's old deadline: before it the key reads as the new pointer, and after it, even if the entry
-- was set later, as null. No other key changes.
pub set_value-view :
    (now : ℤ) (key q : Bytes) (p : ValuePtr) (s : Slot)
    → view (set_value key p s) now q ≡ (
        if key =? q
        then (if is_expired now (find key s.expiration_times) then none else p)
        else view s now q)
unfolding set_value view
set_value-view now key q p s = ground (arith, find-insert key q p s.items, bytes_beq_iff key q)
