-- ===== src/Ambed/Server/Accept.antt =====
-- `run_server` of md380_emu_ambed/src/server.rs: its listeners and its accept loop. The system is told
-- by the files that stand at the paths, by what the removal of a file and the binds answer, and by the
-- connections and failed accepts that arrive on each listener. A handler is known by its connection,
-- which handle_connection serves. A turn of the biased select takes what waits on TCP first.
pub mod Serves
mod Tests
use wjmmmdvm.Base.{
  ℕ, Bool, true, false, ◌&&◌, if◌then◌else◌, List, [], ◌∷◌, ◌++◌, Option, none, some,
}
use wjmmmdvm.Base.Result.{Result, ok, err, stuck, ◌>>=◌}
use wjmmmdvm.Base.Io.{IoError, other}
use wjmmmdvm.Base.Text.{Text, text_eq}

pub record ServerConfig : Type 0 where
  pub tcp_addr : Option Text
  pub unix_path : Option Text

pub data StartError : Type 0 where
  bind_tcp : Text → IoError → StartError
  bind_unix : Text → IoError → StartError
  no_listener : StartError

pub record Listeners : Type 0 where
  pub tcp : Bool
  pub unix : Bool

-- What waits on each listener, and the connections whose handlers were spawned.
pub record Accepting : Type 0 where
  pub tcp_waiting : List (Result IoError ℕ)
  pub unix_waiting : List (Result IoError ℕ)
  pub tcp_handlers : List ℕ
  pub unix_handlers : List ℕ

pub data ServerEvent : Type 0 where
  tcp_arrives : Result IoError ℕ → ServerEvent
  unix_arrives : Result IoError ℕ → ServerEvent
  turn : ServerEvent
  ctrl_c : ServerEvent

-- The paths at which a file stands.
abbrev pub Files : Type 0
Files = Text → Bool

-- What the system answers while the server starts: whether a file can be removed, and the errors that
-- the binds meet.
pub record StartAnswers : Type 0 where
  pub tcp_error : Option IoError
  pub removes : Bool
  pub unix_error : Option IoError

-- `EADDRINUSE`: a Unix socket is bound only to a path at which nothing stands.
abbrev pub address_in_use : IoError
address_in_use = other 98

unfoldable pub listen_tcp : Option Text → Option IoError → Result StartError Bool
listen_tcp none answer = ok false
listen_tcp (some addr) none = ok true
listen_tcp (some addr) (some e) = err (bind_tcp addr e)

-- `let _ = std::fs::remove_file(path)`
unfoldable pub remove_file : Bool → Text → Files → Files
remove_file removes path files q = if removes && text_eq q path then false else files q

abbrev pub unix_answer : Text → Option IoError → Bool → Result StartError Bool
unix_answer path answer true = err (bind_unix path address_in_use)
unix_answer path none false = ok true
unix_answer path (some e) false = err (bind_unix path e)

-- A stale socket is removed before the bind.
unfoldable pub listen_unix : Option Text → StartAnswers → Files → Result StartError Bool
unfolding remove_file
listen_unix none answers files = ok false
listen_unix (some path) answers files =
    unix_answer path answers.unix_error (remove_file answers.removes path files path)

-- A failed accept is logged.
abbrev pub spawn : Result IoError ℕ → List ℕ
spawn (ok c) = c ∷ []
spawn (err e) = []
spawn stuck = []

unfoldable pub accept_turn : Accepting → Accepting
accept_turn s = elim s.tcp_waiting [
  | x ∷ xs ↦ record s { tcp_waiting = xs; tcp_handlers = s.tcp_handlers ++ spawn x }
  | [] ↦ elim s.unix_waiting [
    | x ∷ xs ↦ record s { unix_waiting = xs; unix_handlers = s.unix_handlers ++ spawn x }
    | [] ↦ s
  ]
]

-- The events so far, and whether the loop has returned.
unfoldable pub accept_loop : Listeners → List ServerEvent → Accepting → Bool × Accepting
unfolding accept_turn
accept_loop l [] s = (false, s)
accept_loop l (ctrl_c ∷ events) s = (true, s)
accept_loop l (turn ∷ events) s = accept_loop l events (accept_turn s)
accept_loop l (tcp_arrives x ∷ events) s =
    accept_loop l events (if l.tcp then record s { tcp_waiting = s.tcp_waiting ++ x ∷ [] } else s)
accept_loop l (unix_arrives x ∷ events) s =
    accept_loop l events
      (if l.unix then record s { unix_waiting = s.unix_waiting ++ x ∷ [] } else s)

abbrev pub none_yet : Accepting
none_yet = record { tcp_waiting = []; unix_waiting = []; tcp_handlers = []; unix_handlers = [] }

unfoldable pub run_server :
    ServerConfig → StartAnswers → Files → List ServerEvent → Result StartError (Bool × Accepting)
unfolding listen_tcp listen_unix accept_loop
run_server cfg answers files events = do
  tcp ← listen_tcp cfg.tcp_addr answers.tcp_error
  unix ← listen_unix cfg.unix_path answers files
  let started : Result StartError (Bool × Accepting) =
      ok (accept_loop (record { tcp = tcp; unix = unix }) events none_yet)
  let nothing_bound : Result StartError (Bool × Accepting) = err no_listener
  if tcp then started else if unix then started else nothing_bound
