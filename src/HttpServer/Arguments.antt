-- ===== src/HttpServer/Arguments.antt =====
-- `convert_arg` of deprecated/HttpServer.h, and the conversion of a handler's arguments. An instance for a floating-point
-- type does not compile, since `std::stringstream ss(std::string(arg));` declares a function.
use fast_db.Prelude.{
  ℕ, zero, suc, ◌+◌, ◌-◌, ◌^◌, ◌≤◌, ◌<◌, Bool, true, false, Option, none, some, List, [], ◌∷◌, ◌++◌,
  Bytes, if◌then◌else◌, leb, length, All, ◌≡◌, refl, arith, ap, map, replicate, ◌≢◌, ◌∙◌,
  append-nil,
}
use fast_db.Prelude.Decimal.{
  is_digit, read_digits, to_string_nat, EndsNumber, read_digits-to_string_nat, to_string_nat-All,
  to_string_nat-ne-nil,
}

-- The types that the template takes.
pub data ArgType : Type 0 where
  uint64_type string_type string_view_type : ArgType

pub data Argument : Type 0 where
  number : ℕ → Argument
  text : Bytes → Argument

-- `std::from_chars` of a `uint64_t`: at least one digit, and a value of 64 bits. What follows the digits is ignored.
unfoldable pub from_chars : Bytes → Option ℕ
from_chars [] = none
from_chars (c ∷ s) =
    let (n, rest) = read_digits 0 (c ∷ s) in
    if is_digit c then (if leb n (2 ^ 64 - 1) then some n else none) else none

unfoldable pub number_of : Option ℕ → Option Argument
number_of none = none
number_of (some n) = some (number n)

-- `none` is the exception `convert error`.
unfoldable pub convert_arg : ArgType → Bytes → Option Argument
unfolding from_chars number_of
convert_arg uint64_type arg = number_of (from_chars arg)
convert_arg string_type arg = some (text arg)
convert_arg string_view_type arg = some (text arg)

unfoldable pub cons_arg : Option Argument → Option (List Argument) → Option (List Argument)
cons_arg none rest = none
cons_arg (some a) none = none
cons_arg (some a) (some rest) = some (a ∷ rest)

-- `this->convert_arg<Args>(args[i++])...`, evaluated from the left.
unfoldable pub convert_args : List ArgType → List Bytes → Option (List Argument)
unfolding convert_arg cons_arg
convert_args [] args = some []
convert_args (t ∷ types) [] = none
convert_args (t ∷ types) (a ∷ args) = cons_arg (convert_arg t a) (convert_args types args)

unfoldable pub reverse_onto {ℓ} : {A : Type ℓ} → List A → List A → List A
reverse_onto [] acc = acc
reverse_onto (x ∷ xs) acc = reverse_onto xs (x ∷ acc)

unfoldable pub reverse_args : Option (List Argument) → Option (List Argument)
unfolding reverse_onto
reverse_args none = none
reverse_args (some values) = some (reverse_onto values [])

-- The standard leaves open in which order the arguments of a call are evaluated, and so which of them takes `args[0]`; these
-- are the two orders that compilers use.
unfoldable pub pass_args : Bool → List ArgType → List Bytes → Option (List Argument)
unfolding convert_args reverse_args reverse_onto
pass_args from_right types args =
    if from_right
    then reverse_args (convert_args (reverse_onto types []) args)
    else convert_args types args

from_chars_digit :
    (c : ℕ) (s : Bytes) (n : ℕ)
    → is_digit c ≡ true
    → (read_digits 0 (c ∷ s)).0 ≡ n
    → from_chars (c ∷ s) ≡ (if leb n (2 ^ 64 - 1) then some n else none)
unfolding from_chars
from_chars_digit c s n h e = rw (h, e) refl

first_digit :
    (s more : Bytes) (n : ℕ)
    → All (λ c. is_digit c ≡ true) s
    → s ≢ []
    → read_digits 0 (s ++ more) ≡ (n, more)
    → from_chars (s ++ more) ≡ (if leb n (2 ^ 64 - 1) then some n else none)
first_digit [] more n all h e = absurd (h refl)
first_digit (c ∷ s) more n (d, all) h e =
    from_chars_digit c (s ++ more) n d (ap (λ (p : ℕ × Bytes). p.0) e)

-- The decimal text of a number, with anything behind it that does not start with a digit, is converted to that number if it
-- is below 2 ^ 64, and to an error otherwise; as a string it is kept as it is.
pub convert_arg-to_string_nat :
    (n : ℕ) (more : Bytes)
    → EndsNumber more
    → (n < 2 ^ 64 → convert_arg uint64_type (to_string_nat n ++ more) ≡ some (number n))
      × ((2 ^ 64 ≤ n → convert_arg uint64_type (to_string_nat n ++ more) ≡ none)
          × (convert_arg string_type (to_string_nat n ++ more)
              ≡ some (text (to_string_nat n ++ more))))
unfolding convert_arg
convert_arg-to_string_nat n more h =
    let e =
      first_digit (to_string_nat n) more n (to_string_nat-All n) (to_string_nat-ne-nil n)
        (read_digits-to_string_nat n more h) in
    (
      (λ small.
          let read : from_chars (to_string_nat n ++ more) ≡ some n = rw e (ground arith) in
          rw (read, number_of) refl),
      (
        (λ large.
            let failed : from_chars (to_string_nat n ++ more) ≡ none = rw e (ground arith) in
            rw (failed, number_of) refl),
        refl,
      ),
    )

convert_texts :
    (args : List Bytes)
    → convert_args (replicate (length args) string_type) args ≡ some (map text args)
unfolding convert_args convert_arg cons_arg
convert_texts [] = refl
convert_texts (a ∷ args) = rw (convert_texts args) refl

reverse_onto-replicate :
    (n m : ℕ) (t : ArgType) → reverse_onto (replicate n t) (replicate m t) ≡ replicate (n + m) t
unfolding reverse_onto
reverse_onto-replicate zero m t = ap (λ (k : ℕ). replicate k t) (omega arith)
reverse_onto-replicate (suc n) m t =
    reverse_onto-replicate n (suc m) t ∙ ap (λ (k : ℕ). replicate k t) (omega arith)

-- A handler with as many string parameters as there are groups gets them in the order of the path where the compiler
-- evaluates arguments from the left, and in the reverse order where it evaluates them from the right.
pub pass_args-order :
    (args : List Bytes)
    → let types = replicate (length args) string_type in
      (pass_args false types args ≡ some (map text args))
      × (pass_args true types args ≡ some (reverse_onto (map text args) []))
unfolding pass_args reverse_args
pass_args-order args =
    let same : length args + 0 ≡ length args = omega arith in
    let turned : reverse_onto (replicate (length args) string_type) []
        ≡ replicate (length args) string_type =
      rw same at (reverse_onto-replicate (length args) 0 string_type) in
    (convert_texts args, rw (turned, convert_texts args) refl)

-- One number for a `uint64_t` parameter, whichever order the compiler has.
pub pass_args-to_string_nat :
    (from_right : Bool) (n : ℕ)
    → let values = pass_args from_right (uint64_type ∷ []) (to_string_nat n ∷ []) in
      (n < 2 ^ 64 → values ≡ some (number n ∷ [])) × (2 ^ 64 ≤ n → values ≡ none)
unfolding pass_args reverse_args reverse_onto convert_args cons_arg
pass_args-to_string_nat true n =
    let (small, (large, _)) =
      rw (append-nil (to_string_nat n)) at (convert_arg-to_string_nat n [] tt) in
    ((λ h. rw (small h) refl), (λ h. rw (large h) refl))
pass_args-to_string_nat false n =
    let (small, (large, _)) =
      rw (append-nil (to_string_nat n)) at (convert_arg-to_string_nat n [] tt) in
    ((λ h. rw (small h) refl), (λ h. rw (large h) refl))
