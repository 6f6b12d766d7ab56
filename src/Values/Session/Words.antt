-- ===== src/Values/Session/Words.antt =====
-- How many words a command needs.
use fast_db.Prelude.{
  ℕ, zero, suc, ◌≤◌, ◌<◌, ◌↔◌, ℤ, List, [], ◌∷◌, Bytes, none, some, length, get_elem?, ◌≡◌, ◌≢◌,
  refl, arith, inl, inr, Option-cases, sym, ◌∙◌,
}
use native.Mathlib.Decide.{dec_lt}
use fast_db.Prelude.Stoi.{Stoi, number, invalid_argument, out_of_range, stoi}
use fast_db.Values.Slot.{ValuePtr, Lookup}
use fast_db.Values.Slot
use fast_db.Values.Session.{
  World, Handler, on_set, on_get, on_del, on_hset, on_hget, on_expire, Outcome, out_of_bounds,
  default_of, put_default, type_reply, hget_reply, expire_number, with_word, run_handler, dispatch,
  process_command, find_handler,
}
use fast_db.Values.Session.Validity.{IsValid, get_value-below}

-- The words that the function in the command table reads, with the command's name.
abbrev pub arity : Handler → ℕ
arity on_set = 3
arity on_get = 2
arity on_del = 2
arity on_hset = 4
arity on_hget = 3
arity on_expire = 3

get_elem?-none : (xs : List Bytes) (i : ℕ) → length xs ≤ i → get_elem? xs i ≡ none
get_elem?-none [] i h = refl
get_elem?-none (x ∷ xs) zero h = absurd (omega arith)
get_elem?-none (x ∷ xs) (suc i) h = get_elem?-none xs i (omega arith)

get_elem?-some {ℓ} :
    {A : Type ℓ} (xs : List A) (i : ℕ) → i < length xs → (x : A) × (get_elem? xs i ≡ some x)
get_elem?-some [] i h = absurd (omega arith)
get_elem?-some (x ∷ xs) zero h = (x, refl)
get_elem?-some (x ∷ xs) (suc i) h = get_elem?-some xs i (omega arith)

module _ {D : Type 0} where
  type_reply-IsDefined :
      (w : World D) (p : ValuePtr)
      → ((a : ℕ) → p ≡ some a → a < length w.heap)
      → type_reply w p ≢ out_of_bounds
  unfolding type_reply
  type_reply-IsDefined w none h = ground arith
  type_reply-IsDefined w (some a) h =
      let (v, e) = get_elem?-some w.heap a (h a refl) in rw (e, type_reply) (ground arith)

  hget_reply-IsDefined : (w : World D) (r : Lookup) → hget_reply w r ≢ out_of_bounds
  unfolding hget_reply
  hget_reply-IsDefined w Lookup.out_of_range = ground arith
  hget_reply-IsDefined w (Lookup.returned []) = ground arith
  hget_reply-IsDefined w (Lookup.returned (c ∷ value)) = ground arith

  expire_number-IsDefined :
      (now : ℤ) (key : Bytes) (n : Stoi) (w : World D) → expire_number now key n w ≢ out_of_bounds
  unfolding expire_number
  expire_number-IsDefined now key (number ttl) w = ground arith
  expire_number-IsDefined now key invalid_argument w = ground arith
  expire_number-IsDefined now key out_of_range w = ground arith

  with_word_missing :
      (command : List Bytes) (i : ℕ) (k : Bytes → Outcome D)
      → length command ≤ i
      → with_word command i k ≡ out_of_bounds
  unfolding with_word
  with_word_missing command i k h = rw (with_word, get_elem?-none command i h)

  with_word_there :
      (command : List Bytes) (i : ℕ) (k : Bytes → Outcome D)
      → i < length command
      → (word : Bytes) × (with_word command i k ≡ k word)
  unfolding with_word
  with_word_there command i k h =
      let (word, e) = get_elem?-some command i h in (word, rw (e, with_word))

  -- If the rest of the function reads past the end whatever the word is, so does the whole.
  with_word_all :
      (command : List Bytes) (i : ℕ) (k : Bytes → Outcome D)
      → ((word : Bytes) → k word ≡ out_of_bounds)
      → with_word command i k ≡ out_of_bounds
  unfolding with_word
  with_word_all command i k h = elim (Option-cases (get_elem? command i)) [
    | inl e ↦ rw (with_word, e)
    | inr (word, e) ↦ rw (with_word, e) (h word)
  ]

  with_word-IsDefined :
      (command : List Bytes) (i : ℕ) (k : Bytes → Outcome D)
      → i < length command
      → ((word : Bytes) → k word ≢ out_of_bounds)
      → with_word command i k ≢ out_of_bounds
  with_word-IsDefined command i k h defined e =
      let (word, same) = with_word_there command i k h in defined word (sym same ∙ e)

  run_handler_short :
      (now : ℤ) (h : Handler) (command : List Bytes) (w : World D)
      → length command < arity h
      → run_handler now h command w ≡ out_of_bounds
  unfolding run_handler
  run_handler_short now on_set command w h =
      with_word_all command 1 _ λ _. with_word_missing command 2 _ (omega arith)
  run_handler_short now on_get command w h = with_word_missing command 1 _ (omega arith)
  run_handler_short now on_del command w h = with_word_missing command 1 _ (omega arith)
  run_handler_short now on_hset command w h =
      with_word_all command 1 _
        λ _. with_word_all command 2 _ λ _. with_word_missing command 3 _ (omega arith)
  run_handler_short now on_hget command w h =
      with_word_all command 1 _ λ _. with_word_missing command 2 _ (omega arith)
  run_handler_short now on_expire command w h =
      with_word_all command 1 _ λ _. with_word_missing command 2 _ (omega arith)

  run_handler-IsDefined :
      (now : ℤ) (h : Handler) (command : List Bytes) (w : World D)
      → IsValid w
      → arity h ≤ length command
      → run_handler now h command w ≢ out_of_bounds
  unfolding run_handler put_default
  run_handler-IsDefined now on_set command w v h =
      with_word-IsDefined command 1 _ (omega arith)
        λ key. with_word-IsDefined command 2 _ (omega arith) λ value. ground arith
  run_handler-IsDefined now on_get command w v h =
      with_word-IsDefined command 1 _ (omega arith) λ key.
        type_reply-IsDefined _ (Slot.get_value now key (default_of w)).0
          (λ a e. get_value-below (length w.heap) (default_of w) key v.pointed now a e)
  run_handler-IsDefined now on_del command w v h =
      with_word-IsDefined command 1 _ (omega arith) λ key. ground arith
  run_handler-IsDefined now on_hset command w v h =
      with_word-IsDefined command 1 _ (omega arith) λ key.
        with_word-IsDefined command 2 _ (omega arith)
          λ field. with_word-IsDefined command 3 _ (omega arith) λ value. ground arith
  run_handler-IsDefined now on_hget command w v h =
      with_word-IsDefined command 1 _ (omega arith) λ key.
        with_word-IsDefined command 2 _ (omega arith)
          λ field. hget_reply-IsDefined _ (Slot.hget key field (default_of w) w.heap)
  run_handler-IsDefined now on_expire command w v h =
      with_word-IsDefined command 1 _ (omega arith) λ key.
        with_word-IsDefined command 2 _ (omega arith)
          λ ttl. expire_number-IsDefined now key (stoi ttl) w

  dispatch-none-IsDefined :
      (now : ℤ) (command : List Bytes) (w : World D) → dispatch now none command w ≢ out_of_bounds
  unfolding dispatch
  dispatch-none-IsDefined now command w = ground arith

  module _ (now : ℤ) (h : Handler) (command : List Bytes) (w : World D) where
    dispatch_two :
        2 ≤ length command → dispatch now (some h) command w ≡ run_handler now h command w
    unfolding dispatch
    dispatch_two two = ground arith

    dispatch_one-IsDefined : length command < 2 → dispatch now (some h) command w ≢ out_of_bounds
    unfolding dispatch
    dispatch_one-IsDefined few = ground arith

    dispatch_iff :
        IsValid w
        → (dispatch now (some h) command w ≡ out_of_bounds)
          ↔ ((2 ≤ length command) × (length command < arity h))
    dispatch_iff v = (
      (λ out. elim (dec_lt 1 (length command)) [
        | no one ↦ absurd (dispatch_one-IsDefined (omega arith) out)
        | yes two ↦ elim (dec_lt (length command) (arity h)) [
          | yes few ↦ (two, few)
          | no enough ↦
              absurd (
                run_handler-IsDefined now h command w v (omega arith)
                  (sym (dispatch_two two) ∙ out))
        ]
      ]),
      (λ (two, few). dispatch_two two ∙ run_handler_short now h command w few),
    )

  -- A command reads past the end of its words exactly when its name is in the table, it has two words at least, and it
  -- has fewer than its function reads: the test for two words does not protect SET, HSET, HGET and EXPIRE.
  pub process_command-out_of_bounds :
      (now : ℤ) (cmd : Bytes) (words : List Bytes) (w : World D)
      → IsValid w
      → (process_command now (cmd ∷ words) w ≡ out_of_bounds) ↔ (
          (h : Handler) × (find_handler cmd ≡ some h)
          × (2 ≤ length (cmd ∷ words))
          × (length (cmd ∷ words) < arity h))
  unfolding process_command
  process_command-out_of_bounds now cmd words w v = elim (Option-cases (find_handler cmd)) [
    | inl e ↦ (
      λ out. absurd (dispatch-none-IsDefined now (cmd ∷ words) w (rw e at out)),
      λ (h, found, two, few). cc,
    )
    | inr (h, e) ↦ (
      (λ out.
          let (two, few) = (dispatch_iff now h (cmd ∷ words) w v).0 (rw e at out) in
          (h, e, two, few)),
      (λ (g, found, two, few). rw found ((dispatch_iff now g (cmd ∷ words) w v).1 (two, few))),
    )
  ]
