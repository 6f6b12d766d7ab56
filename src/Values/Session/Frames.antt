-- ===== src/Values/Session/Frames.antt =====
-- What `read_request` makes of the texts that `async_read_until` hands over.
use fast_db.Prelude.{
  ◌+◌, ◌-◌, ℤ, List, [], ◌∷◌, Bytes, Option, none, some, All, length, map, ◌≡◌, refl, arith, ◌∙◌,
  ap,
}
use fast_db.Values.RespProtocol.{find_crlf, line_at, parse_request}
use fast_db.Values.RespProtocol.Lines.{
  parse_request_step, parse_request_end, find_crlf-bound, drop_all,
}
use fast_db.Values.Session.{
  World, Handler, replied, dispatch, process_command, read_request, serve, waiting, unknown_error,
}

-- What `async_read_until` is documented to return for the delimiter "\r\n": the text up to and with the first one.
abbrev pub IsFrame : Bytes → Type 0
IsFrame text = find_crlf text ≡ some (length text - 2)

parse_request-frame :
    (text : Bytes) → IsFrame text → parse_request text ≡ line_at text (length text - 2) ∷ []
parse_request-frame text frame =
    let bound = find_crlf-bound text (length text - 2) frame in
    let all : length text - 2 + 2 ≡ length text = omega arith in
    parse_request_step text (length text - 2) frame
    ∙ ap (λ (t : List Bytes). line_at text (length text - 2) ∷ t)
        (rw (all, drop_all text) (parse_request_end [] (unfold find_crlf in refl)))

module _ {D : Type 0} (w : World D) where
  dispatch_one :
      (now : ℤ) (h : Option Handler) (cmd : Bytes)
      → dispatch now h (cmd ∷ []) w ≡ replied unknown_error w
  unfolding dispatch
  dispatch_one now none cmd = refl
  dispatch_one now (some h) cmd = refl

  pub read_request-frame :
      (now : ℤ) (text : Bytes) → IsFrame text → read_request now text w ≡ replied unknown_error w
  unfolding read_request
  read_request-frame now text frame =
      rw (parse_request-frame text frame) (unfold process_command in dispatch_one now _ _)

  abbrev pub answer : ℤ × Bytes → Bytes
  answer _ = unknown_error

  -- A session never carries out a command: since each text that is read ends at its first line end, it parses to one
  -- word, and the answer is the unknown-command error, whatever was asked; the values and the slots stay as they are.
  pub serve-frames :
      (texts : List (ℤ × Bytes))
      → All (λ t. IsFrame t.1) texts
      → serve texts w ≡ record { sent = map answer texts; world = w; status = waiting }
  unfolding serve
  serve-frames [] frames = refl
  serve-frames ((now, text) ∷ texts) (frame, frames) =
      rw (read_request-frame now text frame, serve) (rw (serve-frames texts frames))
