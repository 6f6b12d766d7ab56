-- ===== src/HttpServer/Serving/Static.antt =====
-- What deprecated/HttpServer.h answers to a GET request.
use fast_db.Prelude.{
  ◌<◌, bytes_eq, true, Option, none, some, ◌∷◌, Bytes, codes, length, ltb, ◌≡◌, ◌≢◌, refl, arith,
  inl, inr, Option-cases,
}
use fast_db.StringUtil.Search
use fast_db.HttpServer.{Request, Response, new_response, with_content_type, Environment}
use fast_db.HttpServer.MimeTypes.{mime_type}
use fast_db.HttpServer.Serving.{
  Connection, served, write, answer, after_write, prepare_payload, not_found, with_body, read_file,
  file_path_of,
}

pub answer-written :
    (res : Response) (c : Connection)
    → length c.written < c.capacity
    → answer res c
      ≡ served (record { state = c.state; written = res ∷ c.written; capacity = c.capacity })
unfolding answer after_write
answer-written res c h =
    let room : ltb (length c.written) c.capacity ≡ true = ground arith in rw (room, write) refl

dot_found : (s : Bytes) → Search.rfind (codes ".") (b'.' ∷ s) ≢ none
unfolding Search.rfind Search.is_prefix
dot_found s = elim (Option-cases (Search.rfind (codes ".") s)) [
  | inl e ↦ rw (e, Search.later) (λ h. cc)
  | inr (i, e) ↦ rw (e, Search.later) (λ h. cc)
]

pub mime_type-some : (s : Bytes) → (mime : Bytes) × (mime_type (b'.' ∷ s) ≡ some mime)
unfolding mime_type
mime_type-some s = elim (Option-cases (Search.rfind (codes ".") (b'.' ∷ s))) [
  | inl e ↦ absurd (dot_found s e)
  | inr (i, e) ↦ rw (e, mime_type) (_, refl)
]

-- The response for a file, or for none.
abbrev pub file_response : Environment → Request → Bytes → Option Bytes → Response
file_response env req mime none = not_found (with_content_type mime new_response)
file_response env req mime (some content) =
    prepare_payload
      (with_body (read_file env (file_path_of req) content) (with_content_type mime new_response))
