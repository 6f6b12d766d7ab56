-- ===== src/Values/Session/Client.antt =====
-- The repository's own client against its server.
use fast_db.Prelude.{
  ◌≢◌, ℤ, true, List, [], ◌∷◌, Bytes, none, All, ◌≡◌, refl, arith, bytes_beq, bytes_eq, length,
}
use fast_db.Prelude.Decimal.{to_string_nat, to_string_nat-All, to_string_nat-ne-nil, is_digit}
use fast_db.Redis.Command.{SetOptions, push_options, write_parts, write_array, generate_command}
use fast_db.Values.RespProtocol.{find_crlf, parse_request}
use fast_db.Values.RespProtocol.Lines.{IsOneLine, parse_request_line}
use fast_db.Values.Session.{
  World, replied, find_handler, dispatch, process_command, read_request, unknown_error,
}

digits-IsOneLine : (s : Bytes) → All (λ c. is_digit c ≡ true) s → IsOneLine s
unfolding find_crlf
digits-IsOneLine [] h = refl
digits-IsOneLine (c ∷ []) h = refl
digits-IsOneLine (c ∷ d ∷ s) (hc, h) = ground (arith, digits-IsOneLine (d ∷ s) h)

-- A name in the command table begins with a letter.
find_handler_digits : (s : Bytes) → All (λ c. is_digit c ≡ true) s → s ≢ [] → find_handler s ≡ none
unfolding find_handler bytes_beq
find_handler_digits [] h full = absurd (full refl)
find_handler_digits (c ∷ s) (hc, h) full = ground arith

parse_request-write_array :
    (ws : List Bytes)
    → parse_request (write_array ws) ≡ to_string_nat (length ws) ∷ parse_request (write_parts ws)
unfolding write_array
parse_request-write_array ws =
    parse_request_line b'*' (to_string_nat (length ws)) (write_parts ws) (omega arith)
      (digits-IsOneLine _ (to_string_nat-All (length ws)))

-- Even if a whole request is read at once, the server does not understand the client: whatever command, arguments and
-- options `generate_command` writes, the first word that `parse_request` finds is the number of words, and the answer
-- is the unknown-command error, with no change to the state.
pub read_request-generate_command :
    {D : Type 0} (now : ℤ) (command : Bytes) (parts : List Bytes) (options : SetOptions)
    (w : World D)
    → let request : Bytes = generate_command command parts options in
      ((rest : List Bytes) × (parse_request request
          ≡ to_string_nat (length (push_options options (command ∷ parts))) ∷ rest))
      × (read_request now request w ≡ replied unknown_error w)
unfolding read_request generate_command process_command dispatch
read_request-generate_command now command parts options w =
    let ws = push_options options (command ∷ parts) in
    let n = to_string_nat (length ws) in
    (
      (parse_request (write_parts ws), parse_request-write_array ws),
      rw (parse_request-write_array ws, process_command)
          (rw (
            find_handler_digits n (to_string_nat-All (length ws))
              (to_string_nat-ne-nil (length ws)))),
    )
