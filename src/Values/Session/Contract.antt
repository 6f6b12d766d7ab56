-- ===== src/Values/Session/Contract.antt =====
-- What the commands of src/db/values.h promise, as a store that knows of each key whether it is there and its deadline.
use fast_db.Prelude.{
  ℤ, ◌+ℤ◌, ltb_ℤ, Bool, true, false, List, [], ◌∷◌, Bytes, codes, Option, none, some, ◌=?◌,
  if◌then◌else◌, bytes_eq,
}
use fast_db.Prelude.Stoi.{Stoi, number, invalid_argument, out_of_range, stoi}
use fast_db.Values.Slot.{seconds}
use fast_db.Values.Session.{
  World, Exception, bad_number, number_too_large, Outcome, replied, threw, out_of_bounds, ok_reply,
  null_reply, one_reply, hset_error, process_command,
}

pub record Store : Type 0 where
  pub present : Bytes → Bool
  pub deadline : Bytes → Option ℤ

-- A command with all its words.
pub data Command : Type 0 where
  set_command hget_command expire_command : Bytes → Bytes → Command
  get_command del_command : Bytes → Command
  hset_command : Bytes → Bytes → Bytes → Command

unfoldable pub words_of : Command → List Bytes
words_of (set_command key value) = codes "SET" ∷ key ∷ value ∷ []
words_of (get_command key) = codes "GET" ∷ key ∷ []
words_of (del_command key) = codes "DEL" ∷ key ∷ []
words_of (hset_command key field value) = codes "HSET" ∷ key ∷ field ∷ value ∷ []
words_of (hget_command key field) = codes "HGET" ∷ key ∷ field ∷ []
words_of (expire_command key ttl) = codes "EXPIRE" ∷ key ∷ ttl ∷ []

-- An answer, or an exception that ends the session.
pub data Answer : Type 0 where
  sent : Bytes → Answer
  ended : Exception → Answer
  undefined : Answer

unfoldable pub is_late : ℤ → Option ℤ → Bool
is_late now none = false
is_late now (some deadline) = ltb_ℤ deadline now

unfoldable pub remember : Bytes → Store → Store
remember key st = record {
  present = λ q. if key =? q then true else st.present q;
  deadline = st.deadline;
}

unfoldable pub forget : Bytes → Store → Store
forget key st = record {
  present = λ q. if key =? q then false else st.present q;
  deadline = λ q. if key =? q then none else st.deadline q;
}

unfoldable pub limit : Bytes → ℤ → Store → Store
limit key time st = record {
  present = st.present;
  deadline = λ q. if key =? q then some time else st.deadline q;
}

abbrev pub string_reply : Bytes
string_reply = codes "$6\r\nString\r\n"

unfoldable pub promise_get : Bool → Bytes → Store → Answer × Store
unfolding forget
promise_get true key st = (sent null_reply, forget key st)
promise_get false key st = (sent (if st.present key then string_reply else null_reply), st)

unfoldable pub promise_expire : ℤ → Bytes → Stoi → Store → Answer × Store
unfolding limit
promise_expire now key (number ttl) st = (sent one_reply, limit key (now +ℤ seconds ttl) st)
promise_expire now key invalid_argument st = (ended bad_number, st)
promise_expire now key out_of_range st = (ended number_too_large, st)

-- The answer to a command, and the store behind it.
unfoldable pub promise : ℤ → Command → Store → Answer × Store
unfolding promise_get promise_expire remember forget is_late
promise now (set_command key value) st = (sent ok_reply, remember key st)
promise now (get_command key) st = promise_get (is_late now (st.deadline key)) key st
promise now (del_command key) st = (sent one_reply, forget key st)
promise now (hset_command key field value) st = (sent hset_error, st)
promise now (hget_command key field) st = (sent null_reply, st)
promise now (expire_command key ttl) st = promise_expire now key (stoi ttl) st

unfoldable pub promises : List (ℤ × Command) → Store → List Answer
unfolding promise
promises [] st = []
promises ((now, c) ∷ commands) st = let (a, next) = promise now c st in a ∷ promises commands next

abbrev pub empty_store : Store
empty_store = record { present = λ q. false; deadline = λ q. none }

module _ {D : Type 0} where
  -- What the commands are answered, whichever sessions send them. An exception ends one session, and the others go on.
  unfoldable pub continue_with : Outcome D → (World D → List Answer) → List Answer
  continue_with (replied reply w) rest = sent reply ∷ rest w
  continue_with (threw e w) rest = ended e ∷ rest w
  continue_with out_of_bounds rest = undefined ∷ []

  unfoldable pub answers : List (ℤ × Command) → World D → List Answer
  unfolding continue_with words_of
  answers [] w = []
  answers ((now, c) ∷ commands) w =
      continue_with (process_command now (words_of c) w) (answers commands)
