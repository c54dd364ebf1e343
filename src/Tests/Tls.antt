-- ===== src/Tests/Tls.antt =====
-- Connections of BearTLS/wm_https.c at concrete inputs, over the platform of Tests.Echo.
use bear_tls.Base.{
  ℕ, ◌≡◌, ◌≤◌, ◌<◌, ◌⊎◌, refl, true, false, List, [], ◌∷◌, ◌++◌, none, some, arith, length, take,
  drop, codes, replicate, memcpy, store,
}
use bear_tls.Request.{Parts}
use bear_tls.Request.Build.{request_text}
use bear_tls.Connection.Platform.{HttpsResult, zero_result, disconnect, World, Connection}
use bear_tls.Connection.Connect.{connect_ipv4, connect_socket, resolve}
use bear_tls.Connection.Open.{
  tls_open, tls_close, connect_and_start, start_tls, handshake_loop, finish_open, close_loop,
  finish_close, release,
}
use bear_tls.Connection.Transfer.{
  write_loop, take_len, push_data, read_loop, at_hand, closed_ok, Written, ReadStep, tls_write,
  tls_read,
}
use bear_tls.Connection.Exchange.{
  opened_exchange, exchange_on, receive_and_finish, finish_exchange, store_read, Exchanged,
  returned, receive_loop, exchange_internal, https_request,
}
use bear_tls.Connection.Delivery.{tls_write-accepted, tls_read-delivered}
use bear_tls.Connection.Held.{Balanced, Restored, counts}
use bear_tls.Connection.Balance.{Settled, tls_open-Settled}
use bear_tls.Connection.Leaks.{tls_close-Balanced, exchange_internal-Balanced}
use bear_tls.Connection.Returns.{exchange_internal_returns}
use bear_tls.Connection.Agreement.{Says, exchange_internal-Says}
use bear_tls.Connection.Requests.{https_request-exchange_internal}
use bear_tls.Example.{Shown, sites, win_main}
use bear_tls.Example.Program.{IsReport, win_main_returns}
use bear_tls.Connection.Response.{HoldsText, Gets, receive_loop-Gets}
use bear_tls.Connection.Answer.{Answers, exchange_internal-Answers}
use bear_tls.Tests.Echo.{greeting, fresh_echo, all_at_once, echo_streams, echo_progress}

abbrev idle : World all_at_once
idle = record { net = 0; store = false; startups = 0; sockets = 0; blocks = 0 }

abbrev busy : World all_at_once
busy = record { net = 0; store = true; startups = 1; sockets = 1; blocks = 3 }

-- As at rest, with the blocks of the certificate store.
abbrev settled : World all_at_once
settled = record { net = 0; store = true; startups = 0; sockets = 0; blocks = 2 }

abbrev line : Connection all_at_once
line = record { sock = some 5; engine = fresh_echo; closed = false }

exchange_internal_returns_example :
    (x : Exchanged all_at_once) × (exchange_internal all_at_once 99
        (some (codes "a"))
        443
        none
        (some (codes "GET /"))
        (replicate 40 1)
        40
        idle
        none
      ≡ returned x)
    × (length x.response ≡ 40)
    × ((x.ok ≡ 0)
        ⊎ ((x.ok ≡ 1) × (answer : List ℕ) × HoldsText 40 answer x.response × (0 < length answer)))
exchange_internal_returns_example =
    exchange_internal_returns all_at_once echo_progress echo_streams 99 (some (codes "a")) 443 none
      (codes "GET /") (replicate 40 1) 40 idle none refl (omega arith)

exchange_internal-Answers_example : Answers all_at_once echo_streams 40 (
    exchange_internal all_at_once 9
      (some (codes "a"))
      443
      none
      (some (codes "GET /"))
      (replicate 40 1)
      40
      idle
      none)
exchange_internal-Answers_example =
    exchange_internal-Answers all_at_once echo_streams 9 (some (codes "a")) 443 none
      (some (codes "GET /")) (replicate 40 1) 40 idle none refl

exchange_ran :
    (x : Exchanged all_at_once) × (exchange_internal all_at_once 9
        (some (codes "a"))
        443
        none
        (some (codes "GET /"))
        (replicate 40 1)
        40
        idle
        none
      ≡ returned x)
unfolding exchange_internal opened_exchange exchange_on receive_and_finish finish_exchange
    receive_loop store_read memcpy store tls_open connect_and_start connect_ipv4 connect_socket
    resolve start_tls handshake_loop finish_open tls_write write_loop take_len push_data tls_read
    read_loop at_hand closed_ok tls_close close_loop finish_close release disconnect zero_result
exchange_ran = (
  record { ok = 1; response = greeting ++ (0 ∷ replicate 24 1); world = settled; result = none },
  refl,
)

exchange_internal-Balanced_example : Restored all_at_once idle exchange_ran.0.world
exchange_internal-Balanced_example =
    exchange_internal-Balanced all_at_once 9 (some (codes "a")) 443 none (some (codes "GET /"))
      (replicate 40 1) 40 idle none exchange_ran.0 exchange_ran.1

abbrev stale : HttpsResult
stale = record { ok = 7; tls_error = 7; wsa_error = 7; http_bytes = 7 }

exchange_told :
    (x : Exchanged all_at_once) × (exchange_internal all_at_once 9
        (some (codes "a"))
        443
        none
        (some (codes "GET /"))
        (replicate 40 1)
        40
        idle
        (some stale)
      ≡ returned x)
unfolding exchange_internal opened_exchange exchange_on receive_and_finish finish_exchange
    receive_loop store_read memcpy store tls_open connect_and_start connect_ipv4 connect_socket
    resolve start_tls handshake_loop finish_open tls_write write_loop take_len push_data tls_read
    read_loop at_hand closed_ok tls_close close_loop finish_close release disconnect zero_result
exchange_told = (
  record {
    ok = 1;
    response = greeting ++ (0 ∷ replicate 24 1);
    world = settled;
    result = some (record { ok = 1; tls_error = 0; wsa_error = 0; http_bytes = 15 });
  },
  refl,
)

exchange_internal-Says_example : Says exchange_told.0.ok exchange_told.0.result
exchange_internal-Says_example =
    exchange_internal-Says all_at_once 9 (some (codes "a")) 443 none (some (codes "GET /"))
      (replicate 40 1) 40 idle (some stale) exchange_told.0 exchange_told.1

abbrev get_root : Parts
get_root = record {
  host = codes "a.org";
  port = 443;
  method = none;
  path = some (codes "/");
  extra_headers = none;
  body = none;
}

https_request-exchange_internal_example :
    https_request all_at_once 99 get_root (replicate 4096 1) (replicate 40 1) 40 idle none
    ≡ exchange_internal all_at_once 99
        (some (codes "a.org"))
        443
        (some (codes "a.org"))
        (some (take 4095 (request_text get_root)))
        (replicate 40 1)
        40
        idle
        none
https_request-exchange_internal_example =
    https_request-exchange_internal all_at_once 99 get_root (replicate 4096 1) (replicate 40 1) 40
      idle none (codes "/") refl (ground arith) refl (omega arith)

open_ran :
    tls_open all_at_once 9 (some (codes "a")) 443 none true none idle
    ≡ some (record { conn = some line; world = busy; result = none })
unfolding tls_open connect_and_start connect_ipv4 connect_socket resolve start_tls handshake_loop
    finish_open zero_result
open_ran = refl

tls_open-Settled_example :
    Settled all_at_once idle (record { conn = some line; world = busy; result = none })
tls_open-Settled_example =
    tls_open-Settled all_at_once 9 (some (codes "a")) 443 none true none idle
      (record { conn = some line; world = busy; result = none }) open_ran

close_ran : tls_close all_at_once 9 (some line) busy ≡ some settled
unfolding tls_close close_loop finish_close release disconnect
close_ran = refl

tls_close-Balanced_example : Balanced all_at_once (counts all_at_once settled) settled
tls_close-Balanced_example =
    tls_close-Balanced all_at_once 9 line (counts all_at_once settled) busy settled (5, refl)
      close_ran

receive_loop-Gets_example :
    Gets all_at_once echo_streams 20 [] []
      (receive_loop all_at_once 9 20 (0 ∷ replicate 19 1) 0 line busy none)
receive_loop-Gets_example =
    receive_loop-Gets all_at_once echo_streams 9 20 [] (0 ∷ replicate 19 1) line busy none
      (replicate 19 1, refl, refl) (omega arith)

abbrev request : List ℕ
request = codes "GET /"

write_ran :
    (s : Written all_at_once) × (tls_write all_at_once 9 line (some request) busy none ≡ some s)
unfolding tls_write write_loop take_len push_data zero_result
write_ran = (
  record {
    ok = true;
    conn = record line { engine = record fresh_echo { taken = request } };
    world = busy;
    result = none;
    bytes_written = 5;
  },
  refl,
)

tls_write-accepted_example :
    (write_ran.0.conn.engine.taken ≡ take write_ran.0.bytes_written request)
    × ((write_ran.0.ok ≡ false) ⊎ (write_ran.0.bytes_written ≡ 5))
tls_write-accepted_example =
    tls_write-accepted all_at_once echo_streams 9 line request busy none write_ran.0 write_ran.1

read_ran : (s : ReadStep all_at_once) × (tls_read all_at_once 9 line true 8 busy none ≡ some s)
unfolding tls_read read_loop at_hand zero_result
read_ran = (
  record {
    ok = true;
    conn = record line {
      engine = record fresh_echo { given = take 8 greeting; waiting = drop 8 greeting };
    };
    world = busy;
    result = none;
    bytes = take 8 greeting;
  },
  refl,
)

tls_read-delivered_example :
    (read_ran.0.conn.engine.given ≡ read_ran.0.bytes)
    × (length read_ran.0.bytes ≤ 8)
    × ((read_ran.0.ok ≡ true) ⊎ (read_ran.0.bytes ≡ []))
tls_read-delivered_example =
    tls_read-delivered all_at_once echo_streams 9 line true 8 busy none read_ran.0 read_ran.1

abbrev at_start : Shown all_at_once
at_start = record {
  report = replicate 2048 3;
  response = replicate 1024 4;
  world = idle;
  res = stale;
}

win_main_returns_example :
    (s : Shown all_at_once) × (win_main all_at_once 6000
        (replicate 4096 1)
        (replicate 256 2)
        at_start
      ≡ returned s)
    × (text : List ℕ) × IsReport all_at_once 6000
        (replicate 4096 1)
        sites
        (replicate 1024 4)
        idle
        stale
        text
    × HoldsText 2048 (take 2047 text) s.report
win_main_returns_example =
    win_main_returns all_at_once echo_progress echo_streams 6000 (omega arith) (replicate 4096 1)
      (replicate 256 2) refl refl at_start refl refl
