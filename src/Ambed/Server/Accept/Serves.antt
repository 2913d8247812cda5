-- ===== src/Ambed/Server/Accept/Serves.antt =====
-- The accept loop of md380_emu_ambed/src/server.rs loses no connection.
use wjmmmdvm.Base.{
  All, ◌≢◌, ℕ, zero, suc, ◌+◌, ◌≤◌, ◌≡◌, refl, sym, ap, ap₂, ◌∙◌, arith, Bool, true, false, ◌||◌,
  List, [], ◌∷◌, ◌++◌, length, replicate, append-nil, append_assoc, Option, none, some,
}
use wjmmmdvm.Base.Result.{Result, ok}
use wjmmmdvm.Base.Io.{IoError}
use wjmmmdvm.Base.Text.{Text, text_eq_refl}
use wjmmmdvm.Ambed.Server.Accept.{
  ServerConfig, Listeners, Accepting, ServerEvent, tcp_arrives, unix_arrives, turn, ctrl_c, spawn,
  accept_turn, accept_loop, none_yet, StartAnswers, Files, listen_tcp, listen_unix, remove_file,
  run_server,
}

-- The connections among what arrived.
abbrev pub accepted : List (Result IoError ℕ) → List ℕ
accepted [] = []
accepted (x ∷ xs) = spawn x ++ accepted xs

abbrev pub listened : Bool → Result IoError ℕ → List (Result IoError ℕ) → List (Result IoError ℕ)
listened true x xs = x ∷ xs
listened false x xs = xs

-- What arrives on a listener before the signal, if there is one.
abbrev pub tcp_arrivals : Listeners → List ServerEvent → List (Result IoError ℕ)
tcp_arrivals l [] = []
tcp_arrivals l (ctrl_c ∷ events) = []
tcp_arrivals l (turn ∷ events) = tcp_arrivals l events
tcp_arrivals l (tcp_arrives x ∷ events) = listened l.tcp x (tcp_arrivals l events)
tcp_arrivals l (unix_arrives x ∷ events) = tcp_arrivals l events

abbrev pub unix_arrivals : Listeners → List ServerEvent → List (Result IoError ℕ)
unix_arrivals l [] = []
unix_arrivals l (ctrl_c ∷ events) = []
unix_arrivals l (turn ∷ events) = unix_arrivals l events
unix_arrivals l (tcp_arrives x ∷ events) = unix_arrivals l events
unix_arrivals l (unix_arrives x ∷ events) = listened l.unix x (unix_arrivals l events)

-- Those with a handler and those that wait.
abbrev pub tcp_all : Accepting → List ℕ
tcp_all s = s.tcp_handlers ++ accepted s.tcp_waiting

abbrev pub unix_all : Accepting → List ℕ
unix_all s = s.unix_handlers ++ accepted s.unix_waiting

accepted-append :
    (xs ys : List (Result IoError ℕ)) → accepted (xs ++ ys) ≡ accepted xs ++ accepted ys
accepted-append [] ys = refl
accepted-append (x ∷ xs) ys =
    ap (λ r. spawn x ++ r) (accepted-append xs ys)
    ∙ sym (append_assoc (spawn x) (accepted xs) (accepted ys))

-- One more at the end of the queue.
queued :
    (handlers : List ℕ) (waiting : List (Result IoError ℕ)) (x : Result IoError ℕ) (more : List ℕ)
    → (handlers ++ accepted (waiting ++ x ∷ [])) ++ more
      ≡ (handlers ++ accepted waiting) ++ (spawn x ++ more)
queued handlers waiting x more =
    ap (λ a. (handlers ++ a) ++ more)
      (accepted-append waiting (x ∷ []) ∙ ap (λ r. accepted waiting ++ r) (append-nil (spawn x)))
    ∙ ap (λ a. a ++ more) (sym (append_assoc handlers (accepted waiting) (spawn x)))
    ∙ append_assoc (handlers ++ accepted waiting) (spawn x) more

abbrev waiting_state :
    List (Result IoError ℕ) → List (Result IoError ℕ) → List ℕ → List ℕ → Accepting
waiting_state tw uw th uh = record {
  tcp_waiting = tw;
  unix_waiting = uw;
  tcp_handlers = th;
  unix_handlers = uh;
}

turn_by :
    (tw uw : List (Result IoError ℕ)) (th uh : List ℕ)
    → let s = waiting_state tw uw th uh in
      (tcp_all (accept_turn s) ≡ tcp_all s) × (unix_all (accept_turn s) ≡ unix_all s)
unfolding accept_turn
turn_by (x ∷ xs) uw th uh = (append_assoc th (spawn x) (accepted xs), refl)
turn_by [] (x ∷ xs) th uh = (refl, append_assoc uh (spawn x) (accepted xs))
turn_by [] [] th uh = (refl, refl)

turn_all :
    (s : Accepting)
    → (tcp_all (accept_turn s) ≡ tcp_all s) × (unix_all (accept_turn s) ≡ unix_all s)
turn_all s = turn_by s.tcp_waiting s.unix_waiting s.tcp_handlers s.unix_handlers

-- The listeners that there are.
abbrev pub bound : Bool → Bool → Listeners
bound t u = record { tcp = t; unix = u }

loop_all :
    (t u : Bool) (events : List ServerEvent) (s : Accepting)
    → let s' = (accept_loop (bound t u) events s).1 in
      (tcp_all s' ≡ tcp_all s ++ accepted (tcp_arrivals (bound t u) events))
      × (unix_all s' ≡ unix_all s ++ accepted (unix_arrivals (bound t u) events))
unfolding accept_loop
loop_all t u [] s = (sym (append-nil (tcp_all s)), sym (append-nil (unix_all s)))
loop_all t u (ctrl_c ∷ events) s = (sym (append-nil (tcp_all s)), sym (append-nil (unix_all s)))
loop_all t u (turn ∷ events) s =
    let (a, b) = loop_all t u events (accept_turn s) in
    let (c, d) = turn_all s in
    (
      a ∙ ap (λ r. r ++ accepted (tcp_arrivals (bound t u) events)) c,
      b ∙ ap (λ r. r ++ accepted (unix_arrivals (bound t u) events)) d,
    )
loop_all true u (tcp_arrives x ∷ events) s =
    let (a, b) = loop_all true u events (record s { tcp_waiting = s.tcp_waiting ++ x ∷ [] }) in
    (a ∙ queued s.tcp_handlers s.tcp_waiting x (accepted (tcp_arrivals (bound true u) events)), b)
loop_all false u (tcp_arrives x ∷ events) s = loop_all false u events s
loop_all t true (unix_arrives x ∷ events) s =
    let (a, b) = loop_all t true events (record s { unix_waiting = s.unix_waiting ++ x ∷ [] }) in
    (
      a,
      b ∙ queued s.unix_handlers s.unix_waiting x (accepted (unix_arrivals (bound t true) events)),
    )
loop_all t false (unix_arrives x ∷ events) s = loop_all t false events s

-- With nothing that waits.
abbrev pub all_handled : List ℕ → List ℕ → Accepting
all_handled th uh = waiting_state [] [] th uh

drained :
    (l : Listeners) (n : ℕ) (tw uw : List (Result IoError ℕ)) (th uh : List ℕ)
    → length tw + length uw ≤ n
    → accept_loop l (replicate n turn) (waiting_state tw uw th uh)
      ≡ (false, all_handled (th ++ accepted tw) (uh ++ accepted uw))
unfolding accept_loop accept_turn
drained l zero [] [] th uh h =
    ap₂ (λ a b. (false, all_handled a b)) (sym (append-nil th)) (sym (append-nil uh))
drained l zero (x ∷ xs) uw th uh h = absurd (omega arith)
drained l zero [] (x ∷ xs) th uh h = absurd (omega arith)
drained l (suc n) (x ∷ xs) uw th uh h =
    drained l n xs uw (th ++ spawn x) uh (omega arith)
    ∙ ap (λ a. (false, all_handled a (uh ++ accepted uw))) (append_assoc th (spawn x) (accepted xs))
drained l (suc n) [] (x ∷ xs) th uh h =
    drained l n [] xs th (uh ++ spawn x) (omega arith)
    ∙ ap (λ b. (false, all_handled (th ++ []) b)) (append_assoc uh (spawn x) (accepted xs))
drained l (suc n) [] [] th uh h = drained l n [] [] th uh (omega arith)

abbrev pub is_some : Option Text → Bool
is_some none = false
is_some (some t) = true

abbrev pub listeners_of : ServerConfig → Listeners
listeners_of cfg = bound (is_some cfg.tcp_addr) (is_some cfg.unix_path)

-- The system takes every bind, and what stands at a path can be removed.
abbrev pub granted : StartAnswers
granted = record { tcp_error = none; removes = true; unix_error = none }

bound_form :
    (tcp_addr unix_path : Option Text) (files : Files) (events : List ServerEvent)
    → (is_some tcp_addr || is_some unix_path) ≡ true
    → run_server (record { tcp_addr = tcp_addr; unix_path = unix_path }) granted files events
      ≡ ok (accept_loop (bound (is_some tcp_addr) (is_some unix_path)) events none_yet)
unfolding run_server listen_tcp listen_unix remove_file
bound_form none none files events h = absurd (cc)
bound_form (some t) none files events h = refl
bound_form none (some u) files events h = rw (text_eq_refl u) refl
bound_form (some t) (some u) files events h = rw (text_eq_refl u) refl

-- A loop that the signal has not ended goes on with further events, and one that meets it ends.
accept_loop-append :
    (l : Listeners) (events more : List ServerEvent) (s : Accepting)
    → All (λ e. e ≢ ctrl_c) events
    → accept_loop l (events ++ more) s ≡ accept_loop l more (accept_loop l events s).1
unfolding accept_loop
accept_loop-append l [] more s h = refl
accept_loop-append l (ctrl_c ∷ events) more s h = absurd (h.0 refl)
accept_loop-append l (turn ∷ events) more s h = accept_loop-append l events more (accept_turn s) h.1
accept_loop-append l (tcp_arrives x ∷ events) more s h = accept_loop-append l events more _ h.1
accept_loop-append l (unix_arrives x ∷ events) more s h = accept_loop-append l events more _ h.1

-- The loop at the signal, whatever comes later.
accept_loop-signal :
    (l : Listeners) (later : List ServerEvent) (s : Accepting)
    → accept_loop l (ctrl_c ∷ later) s ≡ (true, s)
unfolding accept_loop
accept_loop-signal l later s = refl

-- With an address or a path configured, and a system that takes the binds and the removal of what
-- stands at the path, whatever files there are, and for any events without the signal: the
-- connections that arrived on each listener that is configured, in their order, are those with a
-- handler and then those that wait, failed accepts left out; with as many further turns as there
-- are connections and failures that wait, `run_server` has given each connection a handler and
-- has not returned; and with the signal instead it returns with the handlers that it has.
pub run_server_serves :
    (cfg : ServerConfig) (files : Files) (events later : List ServerEvent)
    → (is_some cfg.tcp_addr || is_some cfg.unix_path) ≡ true
    → All (λ e. e ≢ ctrl_c) events
    → let l = listeners_of cfg in
      let s = (accept_loop l events none_yet).1 in
      let waiting = length s.tcp_waiting + length s.unix_waiting in
      (s.tcp_handlers ++ accepted s.tcp_waiting ≡ accepted (tcp_arrivals l events))
      × (s.unix_handlers ++ accepted s.unix_waiting ≡ accepted (unix_arrivals l events))
      × (run_server cfg granted files (events ++ replicate waiting turn)
          ≡ ok (
            false,
            all_handled (accepted (tcp_arrivals l events)) (accepted (unix_arrivals l events)),
          ))
      × (run_server cfg granted files (events ++ ctrl_c ∷ later) ≡ ok (true, s))
run_server_serves cfg files events later h quiet =
    let l = listeners_of cfg in
    let s = (accept_loop l events none_yet).1 in
    let waiting = length s.tcp_waiting + length s.unix_waiting in
    let (a, b) = loop_all (is_some cfg.tcp_addr) (is_some cfg.unix_path) events none_yet in
    (
      a,
      b,
      bound_form cfg.tcp_addr cfg.unix_path files (events ++ replicate waiting turn) h
          ∙ ap (λ x. ok x)
              (accept_loop-append l events (replicate waiting turn) none_yet quiet
                ∙ drained l waiting s.tcp_waiting s.unix_waiting s.tcp_handlers s.unix_handlers
                    (omega arith)
                ∙ ap₂ (λ x y. (false, all_handled x y)) a b),
      bound_form cfg.tcp_addr cfg.unix_path files (events ++ ctrl_c ∷ later) h
          ∙ ap (λ x. ok x)
              (accept_loop-append l events (ctrl_c ∷ later) none_yet quiet
                ∙ accept_loop-signal l later s),
    )
