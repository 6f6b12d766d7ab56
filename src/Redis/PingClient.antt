-- ===== src/Redis/PingClient.antt =====
-- `simplePingClient` and `redis_asio_connect` of src/redis/redis_asio.hpp. The server is a parameter: whether it takes a
-- connection, and what one read returns after the texts sent so far, or none for an error.
use fast_db.Prelude.{
  Bool, true, false, Option, none, some, List, [], ◌∷◌, ◌++◌, Bytes, codes, take, if◌then◌else◌,
  ◌≡◌, ◌≢◌, ◌⊎◌, inl, inr, refl, Bool-cases, Option-cases,
}
use fast_db.Prelude.Decimal.{to_string_nat}
use fast_db.Redis.Command.{generate_command, plain_command, write_array, write_parts, push_options}
use fast_db.Redis.RedisConnection

pub record Peer : Type 0 where
  pub connects : Bool
  pub writable : List Bytes → Bool
  pub reply : List Bytes → Option Bytes

-- The texts sent, the lines printed or logged, and whether an exception ended the exchange.
pub record Exchange : Type 0 where
  pub sent : List Bytes
  pub lines : List Bytes
  pub failed : Bool

abbrev pub command_auth : Bytes
command_auth = codes "*2\r\n$4\r\nAUTH\r\n$9\r\nydc061588\r\n"

abbrev pub command_ping : Bytes
command_ping = codes "PING\r\n"

abbrev pub response_line : Bytes → Bytes
response_line reply = codes "Response from Redis: " ++ reply

-- The exception's text is printed after "Connection error: ".
abbrev pub with_failure : Exchange → Exchange
with_failure x = record {
  sent = x.sent;
  lines = x.lines ++ codes "Connection error: " ∷ [];
  failed = true;
}

-- A read of up to 1024 bytes.
unfoldable pub read_reply : Option Bytes → Exchange → Exchange
read_reply none x = with_failure x
read_reply (some reply) x = record {
  sent = x.sent;
  lines = x.lines ++ response_line (take 1024 reply) ∷ [];
  failed = false;
}

-- One block: a command is written, and its reply read.
unfoldable pub request : Peer → Bytes → Exchange → Exchange
unfolding read_reply
request peer command x =
    let sent = x.sent ++ command ∷ [] in
    let now : Exchange = record { sent = sent; lines = x.lines; failed = x.failed } in
    if peer.writable x.sent then read_reply (peer.reply sent) now else with_failure x

abbrev pub closed : Exchange → Exchange
closed x = record {
  sent = x.sent;
  lines = x.lines ++ codes "Connection closed." ∷ [];
  failed = x.failed;
}

unfoldable pub ping : Peer → Exchange → Exchange
unfolding request
ping peer x =
    let y = request peer command_ping x in
    if x.failed then x else (if y.failed then y else closed y)

unfoldable pub simple_ping_client : Peer → Exchange
unfolding request ping
simple_ping_client peer =
    let connected : Exchange = record {
      sent = [];
      lines = codes "Connected to Redis server!" ∷ [];
      failed = false;
    } in
    let nothing : Exchange = record { sent = []; lines = []; failed = false } in
    if peer.connects then ping peer (request peer command_auth connected) else with_failure nothing

-- The coroutine catches its exceptions, so that only the signals are left to end `run`.
unfoldable pub redis_asio_connect : Peer → List Bytes
unfolding simple_ping_client
redis_asio_connect peer = (simple_ping_client peer).lines

-- What has been sent of the two commands.
abbrev pub SentInOrder : List Bytes → Type 0
SentInOrder sent =
    (sent ≡ []) ⊎ ((sent ≡ command_auth ∷ []) ⊎ (sent ≡ command_auth ∷ (command_ping ∷ [])))

command_auth-auth : command_auth ≡ RedisConnection.auth (codes "ydc061588")
unfolding RedisConnection.auth generate_command plain_command write_array write_parts push_options
    to_string_nat
command_auth-auth = refl

-- Whatever the server does, the client sends the AUTH command that the builder of RedisConnection makes, PING after it or
-- nothing, in this order. PING is sent only if AUTH was answered, and where no exception ends the exchange both were sent
-- and answered.
pub simple_ping_client_lem :
    (peer : Peer)
    → let x = simple_ping_client peer in
      SentInOrder x.sent
      × ((command_auth ≡ RedisConnection.auth (codes "ydc061588"))
          × ((x.sent ≡ command_auth ∷ (command_ping ∷ []) → peer.reply (command_auth ∷ []) ≢ none)
              × (x.failed ≡ false
                  → (x.sent ≡ command_auth ∷ (command_ping ∷ []))
                    × (peer.reply (command_auth ∷ []) ≢ none)
                    × (peer.reply (command_auth ∷ (command_ping ∷ [])) ≢ none))))
unfolding simple_ping_client request ping read_reply
simple_ping_client_lem peer =
    let auth_only : List Bytes = command_auth ∷ [] in
    let both : List Bytes = command_auth ∷ (command_ping ∷ []) in
    elim (Bool-cases peer.connects) [
      | inr c ↦ rw c (inl refl, (command_auth-auth, ((λ h. cc), (λ h. cc))))
      | inl c ↦ elim (Bool-cases (peer.writable [])) [
        | inr w ↦ rw (c, w) (inl refl, (command_auth-auth, ((λ h. cc), (λ h. cc))))
        | inl w ↦ elim (Option-cases (peer.reply auth_only)) [
          | inl r ↦ rw (c, w, r) (inr (inl refl), (command_auth-auth, ((λ h. cc), (λ h. cc))))
          | inr (text, r) ↦ elim (Bool-cases (peer.writable auth_only)) [
            | inr v ↦ rw (c, w, r, v) (inr (inl refl), (command_auth-auth, ((λ h. cc), (λ h. cc))))
            | inl v ↦ elim (Option-cases (peer.reply both)) [
              | inl q ↦
                  rw (c, w, r, v, q) (inr (inr refl), (command_auth-auth, ((λ h e. cc), (λ h. cc))))
              | inr (more, q) ↦
                  rw (c, w, r, v, q)
                    (
                      inr (inr refl),
                      (command_auth-auth, ((λ h e. cc), (λ h. (refl, (λ e. cc), (λ e. cc))))),
                    )
            ]
          ]
        ]
      ]
    ]
