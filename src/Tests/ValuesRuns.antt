-- ===== src/Tests/ValuesRuns.antt =====
-- The theorems on src/db/values.h at concrete values, slots and sessions.
use fast_db.Prelude.{
  ℕ, ◌≤◌, ◌<◌, ℤ, pos, Bool, false, ◌&&◌, List, [], ◌∷◌, Bytes, codes, none, some, if◌then◌else◌,
  ◌=?◌, bytes_eq, bytes_beq, true, length, map, drop, ◌≡◌, ◌↔◌, refl, arith,
}
use mathlib.Core.List.{flatten}
use fast_db.Prelude.Assoc.{find}
use fast_db.Values.Value.{map_value}
use fast_db.Values.Slot
use fast_db.Values.Slot.{
  Slot, Heap, ValuePtr, Lookup, returned, is_expired, pointer_of, seconds, load, as_map,
}
use fast_db.Values.Slot.Live.{view, get_value-view, remove-view}
use fast_db.Values.Slot.Fields.{same_value, hset-hget}
use fast_db.Values.RespProtocol.{find_crlf, line_at, parse_request, build_response}
use fast_db.Values.RespProtocol.Lines.{parse_request_step, parse_request-build_response}
use fast_db.Prelude.Decimal.{to_string_nat}
use fast_db.Redis.Command.{no_options, push_options, generate_command}
use fast_db.Values.Session.{
  World, Handler, replied, out_of_bounds, process_command, read_request, unknown_error, hset_error,
  null_reply, find_handler, slot_of, default_of, put_default, empty_world,
}
use fast_db.Values.Session.Validity.{IsValid, here}
use fast_db.Values.Session.Contract.{
  Command, set_command, expire_command, get_command, hget_command, answers, promises, empty_store,
}
use fast_db.Values.Session.Refinement.{answers-promises}
use fast_db.Values.Session.Words.{arity, process_command-out_of_bounds}
use fast_db.Values.Session.Strings.{hset_hget_never}
use fast_db.Values.Session.Client.{read_request-generate_command}

abbrev key : Bytes
key = codes "k"

abbrev slot : Slot
slot = record { items = (key, some 0) ∷ []; expiration_times = (key, pos 5) ∷ [] }

get_value-view_example :
    ((Slot.get_value (pos 6) key slot).0 ≡ view slot (pos 6) key)
    × ((view (Slot.get_value (pos 6) key slot).1 (pos 9) key ≡ view slot (pos 9) key)
        × ((p : ValuePtr)
            → (is_expired (pos 6) (find key slot.expiration_times) ≡ true
                → (view (Slot.set_value key p (Slot.get_value (pos 6) key slot).1) (pos 9) key ≡ p)
                  × (view (Slot.set_value key p slot) (pos 9) key ≡ none))
              × (is_expired (pos 6) (find key slot.expiration_times) ≡ false
                  → (Slot.get_value (pos 6) key slot).1 ≡ slot)))
get_value-view_example = get_value-view (pos 6) (pos 9) key key slot (omega arith)

remove-view_example : view (Slot.remove key slot) (pos 1) key ≡ none
unfolding bytes_beq
remove-view_example = remove-view (pos 1) key key slot

abbrev map_slot : Slot
map_slot = record { items = (key, some 0) ∷ (codes "m", some 0) ∷ []; expiration_times = [] }

abbrev map_heap : Heap ℕ
map_heap = map_value [] ∷ []

hset-hget_example :
    let p : ValuePtr = pointer_of (find key map_slot.items) in
    let after : Heap ℕ × Bool = Slot.hset key (codes "f") (codes "v") map_slot map_heap in
    ((after.1 ≡ false) ↔ (as_map (load map_heap p) ≡ none))
    × ((after.1 ≡ false → after.0 ≡ map_heap)
        × ((other_key other : Bytes)
            → Slot.hget other_key other map_slot after.0 ≡ (
                if after.1
                  && (same_value p (pointer_of (find other_key map_slot.items))
                      && (codes "f" =? other))
                then returned (codes "v")
                else Slot.hget other_key other map_slot map_heap)))
hset-hget_example = hset-hget key (codes "f") (codes "v") map_slot map_heap

abbrev two_lines : Bytes
two_lines = codes "+a\r\n+b\r\n"

parse_request_step_example :
    parse_request two_lines ≡ line_at two_lines 2 ∷ parse_request (drop 4 two_lines)
unfolding find_crlf
parse_request_step_example = parse_request_step two_lines 2 refl

abbrev texts : List Bytes
texts = codes "OK" ∷ [] ∷ []

parse_request-build_response_example : parse_request (flatten (map build_response texts)) ≡ texts
unfolding find_crlf
parse_request-build_response_example = parse_request-build_response texts (refl, (refl, tt))

abbrev world : World ℕ
world = empty_world

abbrev set_words : List Bytes
set_words = codes "SET" ∷ key ∷ codes "v" ∷ []

world-IsValid : IsValid world
unfolding default_of find slot_of pointer_of
world-IsValid = record { pointed = λ k a e. cc }

abbrev session_commands : List (ℤ × Command)
session_commands =
    (pos 0, set_command key (codes "v"))
    ∷ (pos 1, expire_command key (codes "-1"))
    ∷ (pos 2, get_command key)
    ∷ (pos 3, hget_command key (codes "f"))
    ∷ []

answers-promises_example :
    answers session_commands (empty_world {D = ℕ}) ≡ promises session_commands empty_store
answers-promises_example = answers-promises ℕ session_commands

abbrev short_words : List Bytes
short_words = key ∷ []

process_command-out_of_bounds_example :
    (process_command (pos 0) (codes "SET" ∷ short_words) world ≡ out_of_bounds) ↔ (
      (h : Handler) × (find_handler (codes "SET") ≡ some h)
      × (2 ≤ length (codes "SET" ∷ short_words))
      × (length (codes "SET" ∷ short_words) < arity h))
process_command-out_of_bounds_example =
    process_command-out_of_bounds (pos 0) (codes "SET") short_words world world-IsValid

hset_hget_never_example :
    (process_command (pos 0) (codes "HSET" ∷ key ∷ codes "f" ∷ codes "v" ∷ []) world
      ≡ replied hset_error (put_default (default_of world) world))
    × (process_command (pos 0) (codes "HGET" ∷ key ∷ codes "f" ∷ []) world
        ≡ replied null_reply (put_default (default_of world) world))
hset_hget_never_example = hset_hget_never {w = world} (pos 0) key (codes "f") (codes "v") here

read_request-generate_command_example :
    let request : Bytes = generate_command (codes "SET") (key ∷ codes "v" ∷ []) no_options in
    ((rest : List Bytes) × (parse_request request
        ≡ to_string_nat (length (push_options no_options (codes "SET" ∷ key ∷ codes "v" ∷ [])))
          ∷ rest))
    × (read_request (pos 0) request world ≡ replied unknown_error world)
read_request-generate_command_example =
    read_request-generate_command (pos 0) (codes "SET") (key ∷ codes "v" ∷ []) no_options world
