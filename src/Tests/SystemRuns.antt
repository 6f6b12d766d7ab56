-- ===== src/Tests/SystemRuns.antt =====
-- The theorems on utils/log.h, utils/macro_definition.hpp, deprecated/asio_coro_util.hpp, the ping client and RedisServer at
-- concrete inputs.
use fast_db.Prelude.{
  ℕ, ◌<◌, ◌≤◌, true, false, List, [], ◌∷◌, Bytes, codes, none, some, length, ◌≡◌, ◌≢◌, refl, arith,
}
use fast_db.Log.{Tm, base_name, log_file_name, init, init_calls}
use fast_db.Log.Names.{init_lem}
use fast_db.Macros.{Predefined}
use fast_db.AsioCoro.{Completion, async_accept_lazy, async_read_some_lazy}
use fast_db.AsioCoro.Interleaving.{Coroutine, fresh, Event, reach, complete}
use fast_db.Redis.PingClient.{
  Peer, simple_ping_client, simple_ping_client_lem, SentInOrder, command_auth, command_ping,
}
use fast_db.Redis.RedisConnection
use fast_db.Values.Session.{World}

abbrev some_day : Tm
some_day = record { tm_year = 125; tm_mon = 0; tm_mday = 5 }

abbrev program : Bytes
program = codes "bin/fast"

init_lem_example :
    (length program ≤ 255
      → length (base_name false program) ≤ 240
      → init false (some program) [] some_day
        ≡ some (init_calls false program (log_file_name (base_name false program) some_day)))
    × ((255 < length program → init false (some program) [] some_day ≡ none)
        × (240 < length (base_name false program) → init false (some program) [] some_day ≡ none))
init_lem_example =
    init_lem false program [] some_day
      (refl, (refl, (refl, (refl, (refl, (refl, (refl, (refl, tt))))))))
      (omega arith, (omega arith, omega arith))

-- A compiler on Linux that defines both `__GNUC__` and `__clang__`.
abbrev clang_on_linux : Predefined
clang_on_linux = record {
  msvc_lang = none;
  cplusplus = some 202302;
  gnuc = some (4, 2);
  clang = some (18, 1);
  win64 = false;
  win32 = false;
  linux = true;
  apple = false;
  unix = true;
  posix_version = false;
  msc_ver = false;
  size_digits = 64;
}

abbrev two_coroutines : List Coroutine
two_coroutines = fresh (async_accept_lazy 0 1) ∷ (fresh (async_read_some_lazy 1 2) ∷ [])

abbrev no_error : ℕ → Completion
no_error n = record { ec = 0; size = n; rs = []; pooled = 0 }

-- The second operation completes first.
abbrev mixed_events : List Event
mixed_events = reach 0 ∷ (reach 1 ∷ (complete 1 (no_error 5) ∷ (complete 0 (no_error 0) ∷ [])))

abbrev friendly : Peer
friendly = record {
  connects = true;
  writable = λ sent. true;
  reply = λ sent. some (codes "+OK\r\n");
}

simple_ping_client_lem_example :
    SentInOrder (simple_ping_client friendly).sent
    × ((command_auth ≡ RedisConnection.auth (codes "ydc061588"))
        × (((simple_ping_client friendly).sent ≡ command_auth ∷ (command_ping ∷ [])
              → friendly.reply (command_auth ∷ []) ≢ none)
            × ((simple_ping_client friendly).failed ≡ false
                → ((simple_ping_client friendly).sent ≡ command_auth ∷ (command_ping ∷ []))
                  × (friendly.reply (command_auth ∷ []) ≢ none)
                  × (friendly.reply (command_auth ∷ (command_ping ∷ [])) ≢ none))))
simple_ping_client_lem_example = simple_ping_client_lem friendly

abbrev empty_world : World ℕ
empty_world = record { heap = []; slots = [] }
