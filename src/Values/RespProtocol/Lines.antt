-- ===== src/Values/RespProtocol/Lines.antt =====
-- What `parse_request` makes of a text, line by line.
use fast_db.Prelude.{
  ℕ, zero, suc, ◌+◌, ◌≤◌, ◌≢◌, List, [], ◌∷◌, ◌++◌, append_assoc, Bytes, Option, none, some, All,
  drop, length, length-drop, take-append, ◌≡◌, refl, arith, map, ap, inl, inr, Option-cases, ◌∙◌,
  sym, ap₂,
}
use mathlib.Core.List.{flatten}
use fast_db.Prelude.Size.{size_sub}
use fast_db.Redis.Command.{crlf}
use fast_db.Values.RespProtocol.{find_crlf, line_at, parse_loop, parse_request, build_response}

-- A text that holds no line end.
abbrev pub IsOneLine : Bytes → Type 0
IsOneLine s = find_crlf s ≡ none

pub find_crlf-bound : (s : Bytes) (i : ℕ) → find_crlf s ≡ some i → i + 2 ≤ length s
unfolding find_crlf
find_crlf-bound [] i h = cc
find_crlf-bound (c ∷ []) i h = cc
find_crlf-bound (c ∷ d ∷ s) zero h = omega arith
find_crlf-bound (c ∷ d ∷ s) (suc i) h = ground (arith, find_crlf-bound (d ∷ s) i)

pub drop_all : (s : Bytes) → drop (length s) s ≡ []
drop_all [] = refl
drop_all (c ∷ s) = drop_all s

-- The lines of a text in which the next line end is known.
abbrev lines_from : Bytes → Option ℕ → List Bytes → List Bytes
lines_from s none rest = []
lines_from s (some i) rest = line_at s i ∷ rest

parse_loop_end : (f : ℕ) (s : Bytes) → find_crlf s ≡ none → parse_loop f s ≡ []
unfolding parse_loop
parse_loop_end zero s h = refl
parse_loop_end (suc f) s h = ground arith

parse_loop_step :
    (f : ℕ) (s : Bytes) (i : ℕ)
    → find_crlf s ≡ some i
    → parse_loop (suc f) s ≡ line_at s i ∷ parse_loop f (drop (i + 2) s)
unfolding parse_loop
parse_loop_step f s i h = rw (h, parse_loop)

parse_loop_short : (f : ℕ) (s : Bytes) → length s ≤ 0 → parse_loop f s ≡ []
parse_loop_short f [] h = parse_loop_end f [] (unfold find_crlf in refl)
parse_loop_short f (c ∷ s) h = absurd (omega arith)

-- Any fuel that is as large as the text gives the same lines.
pub parse_loop_fuel :
    (f g : ℕ) (s : Bytes) → length s ≤ f → length s ≤ g → parse_loop f s ≡ parse_loop g s
parse_loop_fuel zero g s hf hg = parse_loop_short 0 s hf ∙ sym (parse_loop_short g s hf)
parse_loop_fuel (suc f) zero s hf hg = parse_loop_short (suc f) s hg ∙ sym (parse_loop_short 0 s hg)
parse_loop_fuel (suc f) (suc g) s hf hg = elim (Option-cases (find_crlf s)) [
  | inl e ↦ parse_loop_end (suc f) s e ∙ sym (parse_loop_end (suc g) s e)
  | inr (i, e) ↦
      let bound = find_crlf-bound s i e in
      let shorter = length-drop (i + 2) s in
      rw (
        parse_loop_step f s i e,
        parse_loop_step g s i e,
        parse_loop_fuel f g (drop (i + 2) s) (omega arith) (omega arith),
      )
]

pub find_crlf-append :
    (s rest : Bytes) → IsOneLine s → find_crlf (s ++ (crlf ++ rest)) ≡ some (length s)
unfolding find_crlf
find_crlf-append [] rest h = refl
find_crlf-append (c ∷ []) rest h = ground arith
find_crlf-append (c ∷ d ∷ s) rest h = ground (arith, find_crlf-append (d ∷ s) rest)

pub parse_request_end : (s : Bytes) → IsOneLine s → parse_request s ≡ []
unfolding parse_request
parse_request_end s h = parse_loop_end (length s) s h

-- `parse_request` takes the text up to the next line end, less its first byte, as one part and goes on behind the line
-- end; with no line end left it stops. No fuel runs out.
pub parse_request_step :
    (s : Bytes) (i : ℕ)
    → find_crlf s ≡ some i
    → parse_request s ≡ line_at s i ∷ parse_request (drop (i + 2) s)
unfolding parse_request
parse_request_step s i e =
    let bound = find_crlf-bound s i e in
    let shorter = length-drop (i + 2) s in
    parse_loop_fuel (length s) (suc (length s)) s (omega arith) (omega arith)
    ∙ (parse_loop_step (length s) s i e
        ∙ ap (λ (t : List Bytes). line_at s i ∷ t)
            (parse_loop_fuel (length s) (length (drop (i + 2) s)) (drop (i + 2) s) (omega arith)
              (omega arith)))

IsOneLine-cons : (t : ℕ) (r : Bytes) → t ≢ 13 → IsOneLine r → IsOneLine (t ∷ r)
unfolding find_crlf
IsOneLine-cons t [] h one = refl
IsOneLine-cons t (c ∷ r) h one = ground arith

size_sub_one : (n : ℕ) → size_sub (suc n) 1 ≡ n
unfolding size_sub
size_sub_one n = ground arith

drop_line : (r rest : Bytes) → drop (length r + 2) (r ++ (crlf ++ rest)) ≡ rest
drop_line [] rest = refl
drop_line (c ∷ r) rest =
    let e : suc (length r) + 2 ≡ suc (length r + 2) = omega arith in rw e (drop_line r rest)

-- A part behind any byte but a carriage return, up to its line end.
pub parse_request_line :
    (t : ℕ) (r rest : Bytes)
    → t ≢ 13
    → IsOneLine r
    → parse_request (t ∷ (r ++ (crlf ++ rest))) ≡ r ∷ parse_request rest
unfolding line_at
parse_request_line t r rest h one =
    let s : Bytes = t ∷ (r ++ (crlf ++ rest)) in
    let e : suc (length r) + 2 ≡ suc (length r + 2) = omega arith in
    parse_request_step s (suc (length r)) (find_crlf-append (t ∷ r) rest (IsOneLine-cons t r h one))
    ∙ ap₂ {A = Bytes} {B = List Bytes} (λ a b. a ∷ b)
        (rw (size_sub_one (length r), take-append r (crlf ++ rest))) (rw (e, drop_line r rest))

-- Responses that are sent one behind another are parsed back to their texts, if no text holds a line end.
pub parse_request-build_response :
    (responses : List Bytes)
    → All IsOneLine responses
    → parse_request (flatten (map build_response responses)) ≡ responses
unfolding flatten build_response
parse_request-build_response [] h = parse_request_end [] (unfold find_crlf in refl)
parse_request-build_response (r ∷ rs) (one, h) = rw (
  append_assoc r crlf (flatten (map build_response rs)),
  parse_request_line b'+' r (flatten (map build_response rs)) (omega arith) one,
  parse_request-build_response rs h,
)
