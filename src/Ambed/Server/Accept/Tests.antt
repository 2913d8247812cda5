-- ===== src/Ambed/Server/Accept/Tests.antt =====
-- The accept loop at concrete events.
use wjmmmdvm.Base.{
  All, ◌≢◌, true, ◌+◌, ◌≡◌, refl, false, List, [], ◌∷◌, ◌++◌, length, replicate, none, some,
}
use wjmmmdvm.Base.Result.{ok, err}
use wjmmmdvm.Base.Io.{unexpected_eof, other}
use wjmmmdvm.Base.Text.{codes}
use wjmmmdvm.Ambed.Server.Accept.{
  ServerConfig, ServerEvent, tcp_arrives, unix_arrives, turn, ctrl_c, Files, accept_loop, none_yet,
  listen_tcp, listen_unix, remove_file, run_server, bind_tcp, bind_unix, no_listener,
}
use wjmmmdvm.Ambed.Server.Accept.Serves.{
  accepted, tcp_arrivals, unix_arrivals, listeners_of, granted, all_handled, run_server_serves,
}

abbrev both : ServerConfig
both = record { tcp_addr = some (codes "[::]:2460"); unix_path = some (codes "/run/ambed") }

abbrev some_events : List ServerEvent
some_events =
    unix_arrives (ok 7) ∷ tcp_arrives (err unexpected_eof) ∷ turn ∷ tcp_arrives (ok 8) ∷ turn ∷ []

-- TCP comes first: the Unix connection still waits.
unix_waits : (accept_loop (listeners_of both) some_events none_yet).1.unix_waiting ≡ ok 7 ∷ []
unfolding accept_loop wjmmmdvm.Ambed.Server.Accept.accept_turn
unix_waits = refl

some_events-quiet : All (λ e. e ≢ ctrl_c) some_events
some_events-quiet = ((λ h. cc), ((λ h. cc), ((λ h. cc), ((λ h. cc), ((λ h. cc), tt)))))

-- A socket from before stands at every path.
abbrev stale : Files
stale path = true

run_server_serves_example :
    let l = listeners_of both in
    let s = (accept_loop l some_events none_yet).1 in
    let waiting = length s.tcp_waiting + length s.unix_waiting in
    (s.tcp_handlers ++ accepted s.tcp_waiting ≡ accepted (tcp_arrivals l some_events))
    × (s.unix_handlers ++ accepted s.unix_waiting ≡ accepted (unix_arrivals l some_events))
    × (run_server both granted stale (some_events ++ replicate waiting turn)
        ≡ ok (
          false,
          all_handled
              (accepted (tcp_arrivals l some_events))
              (accepted (unix_arrivals l some_events)),
        ))
    × (run_server both granted stale (some_events ++ ctrl_c ∷ turn ∷ []) ≡ ok (true, s))
run_server_serves_example =
    run_server_serves both stale some_events (turn ∷ []) refl some_events-quiet

nothing_configured :
    run_server (record { tcp_addr = none; unix_path = none }) granted stale some_events
    ≡ err no_listener
unfolding run_server listen_tcp listen_unix
nothing_configured = refl

bind_fails :
    run_server both (record granted { tcp_error = some (other 98) }) stale some_events
    ≡ err (bind_tcp (codes "[::]:2460") (other 98))
unfolding run_server listen_tcp
bind_fails = refl

-- What stands at the path cannot be removed.
path_in_use :
    run_server both (record granted { removes = false }) stale some_events
    ≡ err (bind_unix (codes "/run/ambed") (other 98))
unfolding run_server listen_tcp listen_unix remove_file
path_in_use = refl
