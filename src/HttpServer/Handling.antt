-- ===== src/HttpServer/Handling.antt =====
-- The handler that `add_route` of deprecated/HttpServer.h stores: it finds the session, converts the groups and calls the
-- handler that it was given.
use fast_db.Prelude.{
  ℕ, ◌<◌, Bool, Option, none, some, List, [], ◌∷◌, Bytes, codes, length, ◌==◌, ◌≤◌, ◌^◌,
  if◌then◌else◌, ◌≡◌, refl, inl, inr, Bool-cases,
}
use fast_db.HttpServer.{
  SessionsMap, Request, Response, with_result, State, Environment, RequestHandler,
}
use fast_db.HttpServer.Sessions.{Found, find_or_create_session_impl, get_or_create_session}
use fast_db.HttpServer.Sessions.Validity.{IsValid}
use fast_db.HttpServer.Arguments.{
  ArgType, Argument, uint64_type, number, pass_args, pass_args-to_string_nat,
}
use fast_db.Prelude.Decimal.{to_string_nat}

-- How a user's handler ends: it returns, or throws a `std::runtime_error` with a text or another `std::exception`. What is
-- thrown and is no `std::exception` is caught nowhere, and is not modelled.
pub data HandlerEnd : Type 0 where
  returned threw_other : State → Response → HandlerEnd
  threw_runtime_error : Bytes → State → Response → HandlerEnd

-- A user's handler, with the pointer to the session and the converted arguments.
abbrev pub UserHandler : Type 0
UserHandler = Request → Response → Bytes → List Argument → State → HandlerEnd

abbrev pub bad_request : Bytes → Response → Response
bad_request = with_result 400

abbrev pub internal_server_error : Response → Response
internal_server_error = with_result 500 (codes "Internal Server Error")

-- A handler without arguments: every exception is an internal error.
unfoldable pub end_plain : HandlerEnd → State × Response
end_plain (returned st res) = (st, res)
end_plain (threw_runtime_error what st res) = (st, internal_server_error res)
end_plain (threw_other st res) = (st, internal_server_error res)

-- A handler with arguments: a `std::runtime_error` is a bad request with its text.
unfoldable pub end_with_args : HandlerEnd → State × Response
end_with_args (returned st res) = (st, res)
end_with_args (threw_runtime_error what st res) = (st, bad_request what res)
end_with_args (threw_other st res) = (st, internal_server_error res)

-- The call with the values, or the exception of a conversion.
unfoldable pub call_with_args :
    UserHandler → Request → Response → Bytes → State → Option (List Argument) → State × Response
unfolding end_with_args
call_with_args user req res session st none = (st, bad_request (codes "convert error") res)
call_with_args user req res session st (some values) =
    end_with_args (user req res session values st)

unfoldable pub with_session :
    Bool → List ArgType → UserHandler → Request → List Bytes → Found → State × Response
unfolding end_plain call_with_args
with_session from_right [] user req args (session, st, res) = end_plain (user req res session [] st)
with_session from_right (t ∷ types) user req args (session, st, res) =
    if length args == length (t ∷ types)
    then call_with_args user req res session st (pass_args from_right (t ∷ types) args)
    else (st, bad_request (codes "Incorrect number of arguments") res)

unfoldable pub handle : Environment → Bool → List ArgType → UserHandler → RequestHandler
unfolding with_session
handle env from_right types user req res args st =
    with_session from_right types user req args (get_or_create_session env req res st)

-- Let a route have one `uint64_t` parameter, and its group be a number in decimal digits. If the number has 64 bits, the
-- user's handler is called with it and with the request's session, and how it ends decides the answer: what it leaves where
-- it returns, a bad request with the text of a `std::runtime_error`, and an internal error for another exception. If the
-- number is larger, the answer is a bad request, and the handler is not called. The session is found or made in all cases.
pub handle-to_string_nat :
    (env : Environment) (from_right : Bool) (user : UserHandler) (req : Request) (res : Response)
    (n : ℕ) (st : State)
    → let (id, at, prepared) = get_or_create_session env req res st in
      let out = handle env from_right (uint64_type ∷ []) user req res (to_string_nat n ∷ []) st in
      (n < 2 ^ 64
        → (next : State) (answer : Response)
        → (user req prepared id (number n ∷ []) at ≡ returned next answer → out ≡ (next, answer))
          × ((what : Bytes)
              → user req prepared id (number n ∷ []) at ≡ threw_runtime_error what next answer
              → out ≡ (next, with_result 400 what answer))
          × (user req prepared id (number n ∷ []) at ≡ threw_other next answer
              → out ≡ (next, with_result 500 (codes "Internal Server Error") answer)))
      × (2 ^ 64 ≤ n → out ≡ (at, with_result 400 (codes "convert error") prepared))
unfolding handle with_session end_with_args
handle-to_string_nat env from_right user req res n st =
    let (small, large) = pass_args-to_string_nat from_right n in
    (
      (λ h next answer. (
        (λ e. rw (small h, call_with_args, e) refl),
        (λ what e. rw (small h, call_with_args, e) refl),
        (λ e. rw (small h, call_with_args, e) refl),
      )),
      (λ h. rw (large h, call_with_args) refl),
    )

-- The state at a handler's end, whichever it is.
abbrev pub state_of : HandlerEnd → State
state_of (returned st res) = st
state_of (threw_other st res) = st
state_of (threw_runtime_error what st res) = st

end_plain-state : (e : HandlerEnd) → (end_plain e).0 ≡ state_of e
unfolding end_plain
end_plain-state (returned st res) = refl
end_plain-state (threw_other st res) = refl
end_plain-state (threw_runtime_error what st res) = refl

end_with_args-state : (e : HandlerEnd) → (end_with_args e).0 ≡ state_of e
unfolding end_with_args
end_with_args-state (returned st res) = refl
end_with_args-state (threw_other st res) = refl
end_with_args-state (threw_runtime_error what st res) = refl

-- `P` is a property of the sessions.
module _ (P : SessionsMap → Type 0) where
  -- A user's handler that keeps the property, however it ends.
  abbrev pub Keeps : UserHandler → Type 0
  Keeps user =
      (req : Request) (res : Response) (session : Bytes) (args : List Argument) (st : State)
      → P st.sessions
      → P (state_of (user req res session args st)).sessions

  call_with_args-keeps :
      (user : UserHandler) (req : Request) (res : Response) (session : Bytes) (st : State)
      (values : Option (List Argument))
      → Keeps user
      → P st.sessions
      → P (call_with_args user req res session st values).0.sessions
  unfolding call_with_args
  call_with_args-keeps user req res session st none keeps valid = valid
  call_with_args-keeps user req res session st (some values) keeps valid =
      rw (end_with_args-state (user req res session values st))
        (keeps req res session values st valid)

  with_session-keeps :
      (from_right : Bool) (types : List ArgType) (user : UserHandler) (req : Request)
      (args : List Bytes) (r : Found)
      → Keeps user
      → P r.1.sessions
      → P (with_session from_right types user req args r).0.sessions
  unfolding with_session
  with_session-keeps from_right [] user req args (session, st, res) keeps valid =
      rw (end_plain-state (user req res session [] st)) (keeps req res session [] st valid)
  with_session-keeps from_right (t ∷ types) user req args (session, st, res) keeps valid =
      elim (Bool-cases (length args == length (t ∷ types))) [
        | inl e ↦ rw e (call_with_args-keeps user req res session st _ keeps valid)
        | inr e ↦ rw e valid
      ]

  -- If finding or making a session keeps the property, and the user's handler does, so does the stored handler.
  pub handle-keeps :
      (env : Environment) (from_right : Bool) (types : List ArgType) (user : UserHandler)
      (req : Request) (res : Response) (args : List Bytes) (st : State)
      → ((id : Bytes) → P st.sessions → P (find_or_create_session_impl env id st res).1.sessions)
      → Keeps user
      → P st.sessions
      → P (handle env from_right types user req res args st).0.sessions
  unfolding handle get_or_create_session
  handle-keeps env from_right types user req res args st finding keeps valid =
      with_session-keeps from_right types user req args _ keeps (finding _ valid)

-- A user's handler that leaves valid sessions valid, however it ends.
abbrev pub KeepsSessions : UserHandler → Type 0
KeepsSessions = Keeps IsValid
