-- ===== src/Redis/RoundTrip.antt =====
-- What `generate_command` writes is read back by a server, byte for byte.
use fast_db.Prelude.{
  ℕ, zero, suc, ◌≤◌, false, List, [], ◌∷◌, ◌++◌, append_assoc, Bytes, some, ltb, length,
  length-append, take-append, drop-append, ◌≡◌, refl, arith, map, ap, sym, ◌∙◌, length-map,
}
use mathlib.Core.List.{flatten}
use fast_db.Prelude.Decimal.{to_string_nat, read_digits-to_string_nat}
use fast_db.Redis.Command.{
  SetOptions, push_options, crlf, write_parts, write_array, generate_command,
}
use fast_db.Redis.Resp.{
  expect, read_crlf, read_header, read_bulk, read_bulks, read_command, read_commands,
}

expect_self : (b : ℕ) (s : Bytes) → expect b (b ∷ s) ≡ some s
unfolding expect
expect_self b s = ground arith

read_crlf_lem : (s : Bytes) → read_crlf (crlf ++ s) ≡ some s
unfolding read_crlf
read_crlf_lem s = refl

read_header_lem :
    (tag n : ℕ) (s : Bytes) → read_header tag (tag ∷ (to_string_nat n ++ (crlf ++ s))) ≡ some (n, s)
unfolding read_header
read_header_lem tag n s = rw (expect_self tag _, read_digits-to_string_nat n (crlf ++ s) refl)

ltb-length : (p s : Bytes) → ltb (length (p ++ s)) (length p) ≡ false
ltb-length p s = ground (arith, length-append p s)

read_bulk_lem :
    (p s : Bytes)
    → read_bulk (b'$' ∷ (to_string_nat (length p) ++ (crlf ++ (p ++ (crlf ++ s))))) ≡ some (p, s)
unfolding read_bulk
read_bulk_lem p s = rw (
  read_header_lem b'$' (length p) (p ++ (crlf ++ s)),
  ltb-length p (crlf ++ s),
  drop-append p (crlf ++ s),
  take-append p (crlf ++ s),
)

write_parts_step :
    (w : Bytes) (ws : List Bytes) (s : Bytes)
    → write_parts (w ∷ ws) ++ s
      ≡ b'$' ∷ (to_string_nat (length w) ++ (crlf ++ (w ++ (crlf ++ (write_parts ws ++ s)))))
unfolding write_parts
write_parts_step w ws s = simp append_assoc

read_bulks-write_parts :
    (ws : List Bytes) (s : Bytes) → read_bulks (length ws) (write_parts ws ++ s) ≡ some (ws, s)
unfolding read_bulks
read_bulks-write_parts [] s = unfold write_parts in refl
read_bulks-write_parts (w ∷ ws) s =
    rw (write_parts_step w ws s, read_bulk_lem w (write_parts ws ++ s), read_bulks-write_parts ws s)

pub read_command-write_array :
    (ws : List Bytes) (s : Bytes) → read_command (write_array ws ++ s) ≡ some (ws, s)
unfolding read_command write_array
read_command-write_array ws s = rw (
  append_assoc (to_string_nat (length ws)) (crlf ++ write_parts ws) s,
  read_header_lem b'*' (length ws) (write_parts ws ++ s),
  read_bulks-write_parts ws s,
)

-- A server reads every generated command back as the command's name, its parts in order and the words of its
-- options, whatever bytes they hold, and goes on at the first byte behind it.
pub read_command-generate_command :
    (command : Bytes) (parts : List Bytes) (options : SetOptions) (s : Bytes)
    → read_command (generate_command command parts options ++ s)
      ≡ some (push_options options (command ∷ parts), s)
unfolding generate_command
read_command-generate_command command parts options s =
    read_command-write_array (push_options options (command ∷ parts)) s

read_commands-write_array :
    (wss : List (List Bytes)) (fuel : ℕ)
    → length wss ≤ fuel
    → read_commands fuel (flatten (map write_array wss)) ≡ some wss
unfolding read_commands flatten write_array
read_commands-write_array [] zero h = refl
read_commands-write_array [] (suc fuel) h = refl
read_commands-write_array (ws ∷ wss) zero h = absurd (omega arith)
read_commands-write_array (ws ∷ wss) (suc fuel) h = rw (
  read_command-write_array ws (flatten (map write_array wss)),
  read_commands-write_array wss fuel (omega arith),
)

-- A sequence of commands, each with its name, parts and options.
abbrev pub Call : Type 0
Call = Bytes × List Bytes × SetOptions

abbrev pub words_of : Call → List Bytes
words_of (command, parts, options) = push_options options (command ∷ parts)

abbrev pub bytes_of : Call → Bytes
bytes_of (command, parts, options) = generate_command command parts options

bytes_of-write_array :
    (calls : List Call) → map bytes_of calls ≡ map write_array (map words_of calls)
unfolding generate_command
bytes_of-write_array [] = refl
bytes_of-write_array (c ∷ calls) =
    ap (λ t. write_array (words_of c) ∷ t) (bytes_of-write_array calls)

-- Commands that are sent one behind another are read back as the same sequence of commands: where one ends and
-- the next begins is never in doubt.
pub read_commands-generate_command :
    (calls : List Call)
    → read_commands (length calls) (flatten (map bytes_of calls)) ≡ some (map words_of calls)
read_commands-generate_command calls = rw (bytes_of-write_array calls) (
    read_commands-write_array (map words_of calls) (length calls)
      (omega (arith, length-map calls words_of)))

some_injective : (a b : List Bytes × Bytes) → some a ≡ some b → a ≡ b
some_injective a b h = cc

-- Two commands with the same bytes have the same words.
pub generate_command_injective : (c d : Call) → bytes_of c ≡ bytes_of d → words_of c ≡ words_of d
generate_command_injective (c, ps, o) (d, qs, p) same =
    ap (λ (t : List Bytes × Bytes). t.0)
      (some_injective _ _ (
        sym (read_command-generate_command c ps o [])
        ∙ (ap (λ (t : Bytes). read_command (t ++ [])) same
            ∙ read_command-generate_command d qs p [])))
