-- ===== src/HttpServer/Sessions/Cookies.antt =====
-- Which session a request of deprecated/HttpServer.h gets, and when its cookie finds it again.
use fast_db.Prelude.{
  bytes_eq, true, none, some, [], ◌∷◌, ◌++◌, Bytes, codes, length-append, Option-cases, ◌≡◌, ◌≢◌,
  inl, inr, refl, arith, ap, append-nil, ◌∙◌,
}
use fast_db.Prelude.Assoc.{find, find-insert}
use fast_db.StringUtil.Search
use fast_db.HttpServer.{SessionData, SessionsMap, Request, Response, State, Environment}
use fast_db.HttpServer.Sessions.{
  generate_session_id, cookie_text, found, created, find_or_create_session_impl,
  get_or_create_session, session_id_of, touched, new_session_data,
}
use fast_db.HttpServer.Sessions.Validity.{
  IsValid, find-IsSessionId, find_or_create_session_impl-known, find_or_create_session_impl-unknown,
}

-- The session of a request: the one that the id names, with its data and the time of this request, or else a new one
-- without data under a new id, which the response's cookie announces.
abbrev pub IsSessionOf : Environment → Bytes → State → Response → Bytes → State → Response → Type 0
IsSessionOf env id st res p st' res' =
    ((d : SessionData)
      → find id st.sessions ≡ some d
      → (p ≡ id)
        × ((find p st'.sessions ≡ some (touched (env.clock st.readings) d)) × (res' ≡ res)))
    × (find id st.sessions ≡ none
        → (p ≡ generate_session_id (env.draw st.generated))
          × ((find p st'.sessions ≡ some (new_session_data (env.clock st.readings)))
              × (res'.set_cookie ≡ some (cookie_text p))))

-- A request with a known session id gets that session with its data kept and the time set to the clock's, and the response
-- as it was; a request with any other id gets a new session, under the id that the response's cookie carries. In both cases
-- the pointer that the handler gets points to that session, and all other sessions are as before.
pub find_or_create_session_lem :
    (env : Environment) (id : Bytes) (st : State) (res : Response)
    → let r = find_or_create_session_impl env id st res in
      IsSessionOf env id st res r.0 r.1 r.2
      × ((q : Bytes) → r.0 ≢ q → find q r.1.sessions ≡ find q st.sessions)
unfolding found created
find_or_create_session_lem env id st res = elim (Option-cases (find id st.sessions)) [
  | inl e ↦
      let new : Bytes = generate_session_id (env.draw st.generated) in
      let d : SessionData = new_session_data (env.clock st.readings) in
      rw (find_or_create_session_impl-unknown env id st res e) (
        (
          (λ d' h. cc),
          (λ h. (
            refl,
            (ground (arith, find-insert new new d st.sessions, bytes_eq.beq_iff new new), refl),
          )),
        ),
        (λ q other. ground (arith, find-insert new q d st.sessions, bytes_eq.beq_iff new q)),
      )
  | inr (d, e) ↦
      let d' : SessionData = touched (env.clock st.readings) d in
      rw (find_or_create_session_impl-known env id d st res e) (
        (
          (λ d2 h. (
            refl,
            (ground (arith, find-insert id id d' st.sessions, bytes_eq.beq_iff id id, h), refl),
          )),
          (λ h. cc),
        ),
        (λ q other. ground (arith, find-insert id q d' st.sessions, bytes_eq.beq_iff id q)),
      )
]

find_front : (p s : Bytes) → Search.is_prefix p s ≡ true → Search.find p s ≡ some 0
unfolding Search.find
find_front p [] h = rw h refl
find_front p (c ∷ s) h = rw h refl

session_id_of-front : (value : Bytes) → session_id_of (some (codes "session_id=" ++ value)) ≡ value
unfolding session_id_of
session_id_of-front value =
    let front : Search.find (codes "session_id=") (codes "session_id=" ++ value) ≡ some 0 =
      find_front _ _ (Search.is_prefix_self (codes "session_id=") value) in
    rw (front, session_id_of) refl

-- A key has 32 bytes, so that an id with anything behind it is none.
no_longer_key :
    (id more : Bytes) (d : SessionData) (m : SessionsMap)
    → IsValid m
    → find id m ≡ some d
    → more ≢ []
    → find (id ++ more) m ≡ none
no_longer_key id [] d m valid h rest = absurd (rest refl)
no_longer_key id (c ∷ more) d m valid h rest = elim (Option-cases (find (id ++ (c ∷ more)) m)) [
  | inl e ↦ e
  | inr (e, k) ↦
      let (short, _) = find-IsSessionId id d m valid h in
      let (long, _) = find-IsSessionId (id ++ (c ∷ more)) e m valid k in
      absurd (omega (arith, length-append id (c ∷ more)))
]

-- If the Cookie header starts with `session_id=` and the id of a session, the request gets that session and an unchanged
-- response if nothing follows the id. If anything follows, such as another cookie, the session is not found: the request
-- gets a new one, and the response sets a cookie over the old one.
pub get_or_create_session-cookie :
    (env : Environment) (id more : Bytes) (d : SessionData) (req : Request) (st : State)
    (res : Response)
    → IsValid st.sessions
    → find id st.sessions ≡ some d
    → req.cookie ≡ some (codes "session_id=" ++ (id ++ more))
    → let r = get_or_create_session env req res st in
      (more ≡ [] → (r.0 ≡ id) × (r.2 ≡ res))
      × (more ≢ []
          → (r.0 ≡ generate_session_id (env.draw st.generated))
            × (r.2.set_cookie ≡ some (cookie_text r.0)))
unfolding get_or_create_session
get_or_create_session-cookie env id more d req st res valid h sent =
    let named : session_id_of req.cookie ≡ id ++ more =
      rw sent (session_id_of-front (id ++ more)) in
    rw named (
      (λ nothing.
          let known : find (id ++ more) st.sessions ≡ some d = rw (nothing, append-nil id) h in
          let ((old, _), _) = find_or_create_session_lem env (id ++ more) st res in
          let (p, (_, r)) = old d known in
          (p ∙ (ap (λ (t : Bytes). id ++ t) nothing ∙ append-nil id), r)),
      (λ something.
          let unknown = no_longer_key id more d st.sessions valid h something in
          let ((_, new), _) = find_or_create_session_lem env (id ++ more) st res in
          let (p, (_, c)) = new unknown in (p, c)),
    )
