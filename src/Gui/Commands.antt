-- ===== src/Gui/Commands.antt =====
-- Commands of the window in a row.
use grpc_server_rust.Prelude.{
  ℕ, ◌-◌, ◌≡◌, refl, ap, ◌∙◌, arith, Bool, true, false, none, some, Str, str, ◌++◌,
}
use grpc_server_rust.Error.{Outcome, ok, err}
use grpc_server_rust.Models.Stats.{reset_global_stats}
use grpc_server_rust.Gui.{
  GuiConfig, Session, StatsResponse, running, prepared, launched, dialout_modes, start_server,
  stop_server, get_stats,
}
use grpc_server_rust.Gui.Modes.{
  first_unknown, unknown_mode, dialout_modes-unknown, dialout_modes-known,
}

abbrev pub stats_of : Bool → ℕ → StatsResponse
stats_of is_running uptime = record {
  is_running = is_running;
  message_count = 0;
  client_count = 0;
  uptime_secs = uptime;
}

abbrev Opened : Type 0 → Type 0
Opened F = Outcome Str (F × Str × Str)

module _ {F : Type 0} where
  pub start_free :
      (c : GuiConfig) (now : ℕ) (opened : Opened F) (s : Session F)
      → running s.server_thread ≡ false
      → start_server c now opened s ≡ launched c (dialout_modes c.modes) (prepared c now opened s)
  unfolding start_server
  start_free c now opened s h = rw h refl

  start_refused :
      (c : GuiConfig) (now : ℕ) (opened : Opened F) (s : Session F)
      → running s.server_thread ≡ true
      → start_server c now opened s ≡ (s, err (str "Server is already running"))
  unfolding start_server
  start_refused c now opened s h = rw h refl

  prepared_lem :
      (c : GuiConfig) (now : ℕ) (opened : Opened F) (s : Session F)
      → ((prepared c now opened s).start_time ≡ some now)
        × ((prepared c now opened s).stats ≡ reset_global_stats s.stats)
  unfolding prepared
  prepared_lem c now (ok opened) s = ground arith
  prepared_lem c now (err e) s = ground arith

  get_stats_lem :
      (later now : ℕ) (s t : Session F)
      → s.start_time ≡ some now
      → s.stats ≡ reset_global_stats t.stats
      → get_stats later s ≡ stats_of (running s.server_thread) (later - now)
  unfolding get_stats reset_global_stats
  get_stats_lem later now s t clock counts = rw (clock, counts) refl

  stopped_lem :
      (later : ℕ) (s t : Session F)
      → s.stats ≡ reset_global_stats t.stats
      → get_stats later (stop_server s) ≡ stats_of false 0
  unfolding get_stats stop_server reset_global_stats
  stopped_lem later s t counts = rw counts refl

  -- From a session whose server does not run, a start with known modes only: the server runs, its
  -- counters are 0 and its time counts from the start; a second start is refused and changes
  -- nothing; after a stop nothing runs and the time is 0.
  pub start_stop :
      (c c' : GuiConfig) (now now' later : ℕ) (opened opened' : Opened F) (s : Session F)
      → running s.server_thread ≡ false
      → first_unknown c.modes ≡ none
      → let started = start_server c now opened s in
        (started.1 ≡ ok tt)
        × (get_stats later started.0 ≡ stats_of true (later - now))
        × (start_server c' now' opened' started.0
            ≡ (started.0, err (str "Server is already running")))
        × (get_stats later (stop_server started.0) ≡ stats_of false 0)
  start_stop c c' now now' later opened opened' s free known =
      let ready : Session F = prepared c now opened s in
      let (ms, modes) = dialout_modes-known c.modes known in
      let (clock, counts) = prepared_lem c now opened s in
      let done = start_free c now opened s free ∙ ap (λ o. launched c o ready) modes in
      (
        ap (λ r. r.1) done,
        ap (λ r. get_stats later r.0) done
            ∙ get_stats_lem later now (launched c (ok ms) ready).0 s clock counts,
        start_refused c' now' opened' _ (ap (λ r. running r.0.server_thread) done),
        ap (λ r. get_stats later (stop_server r.0)) done
            ∙ stopped_lem later (launched c (ok ms) ready).0 s counts,
      )

  -- From a session whose server does not run, a start with an unknown mode: it is refused by the
  -- first such name and nothing runs, but the counters are reset and the time counts from there.
  pub unknown_mode_starts_clock :
      (c : GuiConfig) (now later : ℕ) (opened : Opened F) (s : Session F) (name : Str)
      → running s.server_thread ≡ false
      → first_unknown c.modes ≡ some name
      → let started = start_server c now opened s in
        (started.1 ≡ err (str "Unknown mode: '" ++ name ++ str "'"))
        × (get_stats later started.0 ≡ stats_of false (later - now))
  unknown_mode_starts_clock c now later opened s name free unknown =
      let ready : Session F = prepared c now opened s in
      let (clock, counts) = prepared_lem c now opened s in
      let done =
        start_free c now opened s free
        ∙ ap (λ o. launched c o ready) (dialout_modes-unknown c.modes name unknown) in
      (
        ap (λ r. r.1) done,
        ap (λ r. get_stats later r.0) done
            ∙ get_stats_lem later now (launched c (unknown_mode name) ready).0 s clock counts,
      )
