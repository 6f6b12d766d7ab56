-- ===== src/HttpServer/Serving.antt =====
-- `process_session` of deprecated/HttpServer.h: the requests of one connection, one after the other. The responses are
-- those written, the last one first; a connection takes some number of them and fails at the next.
pub mod Static
pub mod Dispatch
pub mod Patterns
pub mod Requests
pub mod Answers
use fast_db.Prelude.{
  ℕ, suc, bytes_eq, ◌=?◌, Bool, true, false, Option, none, some, List, [], ◌∷◌, ◌++◌, Bytes, codes,
  take, length, if◌then◌else◌, ltb, ◌&&◌,
}
use fast_db.Prelude.Assoc.{Assoc, find}
use fast_db.StringUtil.Search
use fast_db.HttpServer.{
  table_of, Request, Response, new_response, with_result, with_content_type, State, Environment,
  Route, RoutesMap,
}
use fast_db.HttpServer.MimeTypes.{mime_type}
use fast_db.HttpServer.Handling.{internal_server_error}

pub record Connection : Type 0 where
  pub state : State
  pub written : List Response
  pub capacity : ℕ

-- A request ends with the loop's next round, or with an exception that ends the session.
pub data Served : Type 0 where
  served threw : Connection → Served

abbrev pub with_state : State → Connection → Connection
with_state st c = record { state = st; written = c.written; capacity = c.capacity }

-- `http::async_write`; `none` is an exception.
unfoldable pub write : Response → Connection → Option Connection
write res c =
    if ltb (length c.written) c.capacity
    then some (record { state = c.state; written = res ∷ c.written; capacity = c.capacity })
    else none

unfoldable pub after_write : Connection → Option Connection → Served
after_write c none = threw c
after_write c (some written) = served written

unfoldable pub answer : Response → Connection → Served
unfolding write after_write
answer res c = after_write c (write res c)

-- `prepare_payload` sets the length of the body.
unfoldable pub prepare_payload : Response → Response
prepare_payload res = record {
  status = res.status;
  body = res.body;
  content_type = res.content_type;
  set_cookie = res.set_cookie;
  content_length = some (length res.body);
}

abbrev pub not_found : Response → Response
not_found = with_result 404 (codes "Not Found")

abbrev pub with_body : Bytes → Response → Response
with_body text res = with_result res.status text res

-- What one read of the whole size returns of a file.
abbrev pub read_file : Environment → Bytes → Bytes → Bytes
read_file env file_path content = take (env.read_some file_path (length content)) content

-- A regular file, or none of that name.
unfoldable pub serve_file : Environment → Bytes → Response → Option Bytes → Connection → Served
unfolding answer prepare_payload
serve_file env file_path res none c = answer (not_found res) c
serve_file env file_path res (some content) c =
    answer (prepare_payload (with_body (read_file env file_path content) res)) c

-- The exception of `mime_type` ends the session.
unfoldable pub serve_static : Environment → Bytes → Option Bytes → Connection → Served
unfolding serve_file
serve_static env file_path none c = threw c
serve_static env file_path (some mime) c =
    serve_file env file_path (with_content_type mime new_response) (env.file file_path) c

abbrev pub text_plain : Bytes
text_plain = codes "text/plain; charset=utf-8"

-- After the loop over the routes: an empty body is answered by 404.
unfoldable pub final_response : Response → Response
final_response res = elim res.body [ [] ↦ not_found res | c ∷ s ↦ res ]

-- The write in the loop: on an exception the response becomes an internal error, and the loop goes on.
unfoldable pub write_routed : Response → Connection → Option Connection → Response × Connection
write_routed res c none = (internal_server_error res, c)
write_routed res c (some written) = (res, written)

unfoldable pub run_route :
    Route → Request → Response → List Bytes → Connection → Response × Connection
unfolding write write_routed
run_route route req res groups c =
    let (st, out) = route.handler req (with_content_type text_plain res) groups c.state in
    write_routed out (with_state st c) (write out (with_state st c))

-- The loop over the routes of a method: the expression is made of the key, the path with its placeholders. A route that
-- matches does not end the loop. The groups are `string_view`s of the temporary strings that `match[i].str()` returns, and are
-- read after those are gone; the handler here gets the texts that they had.
unfoldable pub route_loop :
    Environment → Request → Bytes → Assoc Bytes Route → Response → Connection → Served
unfolding answer final_response run_route
route_loop env req path [] res c = answer (final_response res) c
route_loop env req path ((key, route) ∷ routes) res c =
    if env.compiles key
    then elim (env.regex_match key path) [
      | none ↦ route_loop env req path routes res c
      | some groups ↦
          let out = run_route route req res groups c in route_loop env req path routes out.0 out.1
    ]
    else threw c

abbrev pub file_path_of : Request → Bytes
file_path_of req = codes "./static/" ++ req.target

unfoldable pub process_request : Environment → RoutesMap → Request → Bytes → Connection → Served
unfolding serve_static route_loop
process_request env routes req path c =
    let file_path = file_path_of req in
    let is_file = Search.contains file_path (codes ".") in
    if (req.method =? codes "GET") && is_file
    then serve_static env file_path (mime_type file_path) c
    else route_loop env req path (table_of (find req.method routes)) new_response c

-- `none` is the exception for a target that is no URL. `path` is a `string_view` of the temporary string that `target.path()`
-- returns, and is read after that is gone; the path here is the text that it had.
unfoldable pub process_target :
    Environment → RoutesMap → Request → Option Bytes → Connection → Served
unfolding process_request
process_target env routes req none c = threw c
process_target env routes req (some path) c = process_request env routes req path c

unfoldable pub after : (Connection → Connection) → Served → Connection
after next (threw last) = last
after next (served c) = next c

-- The loop ends with the requests, since then the next read throws, or with an exception of its own.
unfoldable pub process_session : Environment → RoutesMap → List Request → Connection → Connection
unfolding process_target after
process_session env routes [] c = c
process_session env routes (req ∷ requests) c =
    after (process_session env routes requests)
      (process_target env routes req (env.url_path req.target) c)
