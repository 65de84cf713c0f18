-- ===== src/Gui/Window.antt =====
-- The commands of the window in any order, with the ends of server threads and the messages that come
-- in between. A start is three steps: the test, the settings with the clock and the file, and the
-- launch, in which the thread and its sender are stored together; no second start comes between them.
-- A stop is a step that takes the sender and the thread, the wait for the thread, and a step that
-- clears the clock and the file. A start and a stop may overlap. `live` counts the server threads that
-- run, whoever knows of them.
use grpc_server_rust.Prelude.{◌||◌, ltb, ℕ, ◌+◌, ◌-◌, ◌<◌, ◌≡◌, Bool, true, false, none, some, Str}
use grpc_server_rust.Error.{Outcome, ok, err}
use grpc_server_rust.Models.Stats.{incr_msg_count, incr_client_count}
use grpc_server_rust.Gui.{GuiConfig, Session, Thread, running, prepared, launched, dialout_modes}

-- The state of the application; the starts that are past their test, and those that are past their
-- settings; the stops that are under way, and how many of these wait for a thread that runs; the
-- server threads that run. `overlapped` is no state of the program: it notes that a start and a stop
-- were under way at the same time.
pub record Window (F : Type 0) : Type 0 where
  pub session : Session F
  pub pending : ℕ
  pub ready : ℕ
  pub stopping : ℕ
  pub waiting : ℕ
  pub live : ℕ
  pub overlapped : Bool

abbrev pub one_if : Bool → ℕ
one_if true = 1
one_if false = 0

abbrev pub started : {A : Type 0} → Outcome Str A → ℕ
started (ok a) = 1
started (err e) = 0

-- The first section of `start_server`, where a thread that has finished is taken, and that of
-- `stop_server`: the thread and the sender are taken.
abbrev pub cleared : {F : Type 0} → Session F → Session F
cleared s = record s { server_thread = none; has_stop_tx = false }

-- The end of `stop_server`.
abbrev pub closed : {F : Type 0} → Session F → Session F
closed s = record s { start_time = none; file_writer = none }

-- The launch, by what it does to the session and answers.
abbrev pub went : {F : Type 0} → Window F → Session F × Outcome Str (Unit {0}) → Window F
went w (s, answer) = record w { session = s; ready = w.ready - 1; live = w.live + started answer }

pub data Step {F : Type 0} (w : Window F) : Window F → Type 0 where
  refuse : running w.session.server_thread ≡ true → Step w w
  check :
      running w.session.server_thread ≡ false
      → w.pending + w.ready < 1
      → Step w (record w {
        session = cleared w.session;
        pending = w.pending + 1;
        overlapped = w.overlapped || ltb 0 w.stopping;
      })
  -- The sender that `prepared` sets to none is so since the test.
  prepare :
      (c : GuiConfig) (now : ℕ) (opened : Outcome Str (F × Str × Str))
      → 0 < w.pending
      → Step w (record w {
        session = prepared c now opened w.session;
        pending = w.pending - 1;
        ready = w.ready + 1;
      })
  set_going :
      (c : GuiConfig) → 0 < w.ready → Step w (went w (launched c (dialout_modes c.modes) w.session))
  stop : Step w (record w {
    session = cleared w.session;
    stopping = w.stopping + 1;
    waiting = w.waiting + one_if (running w.session.server_thread);
    overlapped = w.overlapped || ltb 0 (w.pending + w.ready);
  })
  joined : 0 < w.waiting → Step w (record w { waiting = w.waiting - 1; live = w.live - 1 })
  close :
      w.waiting < w.stopping
      → Step w (record w { session = closed w.session; stopping = w.stopping - 1 })
  finish :
      (t : Thread)
      → w.session.server_thread ≡ some t
      → t.is_finished ≡ false
      → Step w (record w {
        session = record w.session { server_thread = some (record t { is_finished = true }) };
        live = w.live - 1;
      })
  message :
      Step w (record w { session = record w.session { stats = incr_msg_count w.session.stats } })
  client :
      Step w (record w { session = record w.session { stats = incr_client_count w.session.stats } })

-- Nothing runs when the window opens.
pub data Reach {F : Type 0} : Window F → Type 0 where
  here :
      (s : Session F)
      → s.server_thread ≡ none
      → Reach (record {
        session = s;
        pending = 0;
        ready = 0;
        stopping = 0;
        waiting = 0;
        live = 0;
        overlapped = false;
      })
  next : {w v : Window F} → Reach w → Step w v → Reach v
