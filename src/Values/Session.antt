-- ===== src/Values/Session.antt =====
-- `RedisSession` of src/db/values.h: the command table, the handlers and the loop that reads requests. The socket is
-- the list of the texts that `async_read_until` hands over, and what is sent is returned.
pub mod Frames
pub mod Validity
pub mod Words
pub mod Replies
pub mod Strings
pub mod Client
pub mod Contract
pub mod Refinement
use fast_db.Prelude.{
  ℕ, suc, ◌+◌, ℤ, Bool, true, false, List, [], ◌∷◌, ◌++◌, Bytes, codes, Option, none, some,
  if◌then◌else◌, leb, ◌&&◌, ◌=?◌, length, get_elem?, bytes_eq, ◌≡◌, refl,
}
use fast_db.Prelude.Assoc.{Assoc, find, insert}
use fast_db.Prelude.Decimal.{to_string_nat}
use fast_db.Prelude.Stoi.{Stoi, number, invalid_argument, out_of_range, stoi}
use fast_db.Redis.Command.{crlf}
use fast_db.Values.Value.{Value, string_value, type_name}
use fast_db.Values.Slot.{Slot, Heap, ValuePtr, Lookup, empty_slot}
use fast_db.Values.Slot
use fast_db.Values.RespProtocol.{parse_request}

-- The values that are alive and the server's slots, which the sessions share.
pub record World (D : Type 0) : Type 0 where
  pub heap : Heap D
  pub slots : Assoc Bytes Slot

pub data Exception : Type 0 where
  missing_field bad_number number_too_large : Exception

-- A command is answered, or it throws, or it reads past the end of its words, which is undefined behaviour.
pub data Outcome (D : Type 0) : Type 0 where
  replied : Bytes → World D → Outcome D
  threw : Exception → World D → Outcome D
  out_of_bounds : Outcome D

-- Where a session stands: it waits for the next request, or it has printed an error and left the loop, or nothing is
-- known of it any more.
pub data Status : Type 0 where
  waiting : Status
  stopped : Exception → Status
  undefined : Status

pub record Served (D : Type 0) : Type 0 where
  pub sent : List Bytes
  pub world : World D
  pub status : Status

pub data Handler : Type 0 where
  on_set on_get on_del on_hset on_hget on_expire : Handler

-- `command_map_.find(cmd)`
unfoldable pub find_handler : Bytes → Option Handler
find_handler cmd =
    if cmd =? codes "SET"
    then some on_set
    else if cmd =? codes "GET"
    then some on_get
    else if cmd =? codes "DEL"
    then some on_del
    else if cmd =? codes "HSET"
    then some on_hset
    else if cmd =? codes "HGET"
    then some on_hget
    else if cmd =? codes "EXPIRE"
    then some on_expire
    else none

abbrev pub default_slot : Bytes
default_slot = codes "default"

abbrev pub ok_reply : Bytes
ok_reply = codes "+OK\r\n"

abbrev pub null_reply : Bytes
null_reply = codes "$-1\r\n"

abbrev pub one_reply : Bytes
one_reply = codes ":1\r\n"

abbrev pub hset_error : Bytes
hset_error = codes "-ERR failed to set hash field\r\n"

abbrev pub unknown_error : Bytes
unknown_error = codes "-ERR unknown command\r\n"

abbrev pub empty_error : Bytes
empty_error = codes "-ERR empty command\r\n"

-- "$" and the size, and the text
unfoldable pub bulk_reply : Bytes → Bytes
bulk_reply text = codes "$" ++ (to_string_nat (length text) ++ (crlf ++ (text ++ crlf)))

-- The slot that `slots["default"]` finds or makes.
unfoldable pub slot_of : Option Slot → Slot
slot_of none = empty_slot
slot_of (some s) = s

module _ {D : Type 0} where
  unfoldable pub default_of : World D → Slot
  unfolding slot_of
  default_of w = slot_of (find default_slot w.slots)

  unfoldable pub put_default : Slot → World D → World D
  put_default s w = record w { slots = insert default_slot s w.slots }

  unfoldable pub set_value : Bytes → Bytes → World D → Outcome D
  set_value key value w =
      let s = Slot.set_value key (some (length w.heap)) (default_of w) in
      replied ok_reply
        (record { heap = w.heap ++ string_value value ∷ []; slots = insert default_slot s w.slots })

  -- GET sends the name of the value's type; no pointer of the program dangles.
  unfoldable pub type_reply : World D → ValuePtr → Outcome D
  type_reply w none = replied null_reply w
  type_reply w (some a) = elim (get_elem? w.heap a) [
    | none ↦ out_of_bounds
    | some v ↦ replied (bulk_reply (type_name v)) w
  ]

  unfoldable pub get_value : ℤ → Bytes → World D → Outcome D
  unfolding type_reply
  get_value now key w =
      let (p, s) = Slot.get_value now key (default_of w) in type_reply (put_default s w) p

  unfoldable pub delete_value : Bytes → World D → Outcome D
  delete_value key w = replied one_reply (put_default (Slot.remove key (default_of w)) w)

  unfoldable pub hset_value : Bytes → Bytes → Bytes → World D → Outcome D
  hset_value key field value w =
      let s = default_of w in
      let (heap, done) = Slot.hset key field value s w.heap in
      replied (if done then ok_reply else hset_error)
        (record { heap = heap; slots = insert default_slot s w.slots })

  unfoldable pub hget_reply : World D → Lookup → Outcome D
  hget_reply w Lookup.out_of_range = threw missing_field w
  hget_reply w (Lookup.returned []) = replied null_reply w
  hget_reply w (Lookup.returned (c ∷ value)) = replied (bulk_reply (c ∷ value)) w

  unfoldable pub hget_value : Bytes → Bytes → World D → Outcome D
  unfolding hget_reply
  hget_value key field w =
      let s = default_of w in hget_reply (put_default s w) (Slot.hget key field s w.heap)

  -- `std::stoi` throws before the handler starts.
  unfoldable pub expire_number : ℤ → Bytes → Stoi → World D → Outcome D
  expire_number now key (number ttl) w =
      replied one_reply (put_default (Slot.set_expiration now key ttl (default_of w)) w)
  expire_number now key invalid_argument w = threw bad_number w
  expire_number now key out_of_range w = threw number_too_large w

  -- `command[i]`: there is no check of the index.
  unfoldable pub with_word : List Bytes → ℕ → (Bytes → Outcome D) → Outcome D
  with_word command i k = elim (get_elem? command i) [ none ↦ out_of_bounds | some w ↦ k w ]

  -- The functions of the command table.
  unfoldable pub run_handler : ℤ → Handler → List Bytes → World D → Outcome D
  unfolding with_word set_value get_value delete_value hset_value hget_value expire_number
  run_handler now on_set command w =
      with_word command 1 λ key. with_word command 2 λ value. set_value key value w
  run_handler now on_get command w = with_word command 1 λ key. get_value now key w
  run_handler now on_del command w = with_word command 1 λ key. delete_value key w
  run_handler now on_hset command w =
      with_word command 1 λ key.
        with_word command 2 λ field. with_word command 3 λ value. hset_value key field value w
  run_handler now on_hget command w =
      with_word command 1 λ key. with_word command 2 λ field. hget_value key field w
  run_handler now on_expire command w =
      with_word command 1 λ key. with_word command 2 λ ttl. expire_number now key (stoi ttl) w

  -- The entry of the table, if there is one and the command has two words at least.
  unfoldable pub dispatch : ℤ → Option Handler → List Bytes → World D → Outcome D
  dispatch now none command w = replied unknown_error w
  dispatch now (some h) command w =
      if leb 2 (length command) then run_handler now h command w else replied unknown_error w

  unfoldable pub process_command : ℤ → List Bytes → World D → Outcome D
  process_command now [] w = replied empty_error w
  process_command now (cmd ∷ words) w = dispatch now (find_handler cmd) (cmd ∷ words) w

  -- One round of the loop in `read_request`, at the time `now`.
  unfoldable pub read_request : ℤ → Bytes → World D → Outcome D
  read_request now text w = process_command now (parse_request text) w

  -- The loop of `read_request` over the texts that it reads, each with its time.
  unfoldable pub serve : List (ℤ × Bytes) → World D → Served D
  serve [] w = record { sent = []; world = w; status = waiting }
  serve ((now, text) ∷ texts) w = elim (read_request now text w) [
    | replied reply w' ↦ let rest = serve texts w' in record rest { sent = reply ∷ rest.sent }
    | threw e w' ↦ record { sent = []; world = w'; status = stopped e }
    | out_of_bounds ↦ record { sent = []; world = w; status = undefined }
  ]

abbrev pub empty_world : {D : Type 0} → World D
empty_world = record { heap = []; slots = [] }
