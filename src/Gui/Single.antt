-- ===== src/Gui/Single.antt =====
-- How many servers the window runs.
use grpc_server_rust.Prelude.{
  ◌||◌, leb, ℕ, ◌+◌, ◌<◌, ◌≤◌, ◌≡◌, refl, sym, ap, ◌∙◌, ◌-◌, Bool-cases, inl, inr, arith, Bool,
  true, false, not, ◌&&◌, Option, none, some, List, Str,
}
use grpc_server_rust.Error.{Outcome, ok, err}
use grpc_server_rust.Models.{DialoutMode}
use grpc_server_rust.Gui.{
  GuiConfig, Session, Thread, running, prepared, launched, dialout_modes, get_stats,
}
use grpc_server_rust.Gui.Window.{
  Window, one_if, went, Step, refuse, check, prepare, set_going, stop, joined, close, finish,
  message, client, Reach, here, next,
}

abbrev pub is_set : {A : Type 0} → Option A → Bool
is_set none = false
is_set (some a) = true

-- Every server that runs is known or waited for, and the known one can be stopped. While no start
-- overlaps with a stop, there is one at most, and it has a time.
record IsSingle {F : Type 0} (w : Window F) : Type 0 where
  known : w.live ≡ one_if (running w.session.server_thread) + w.waiting
  alone : (w.pending + w.ready) + one_if (running w.session.server_thread) ≤ 1
  under_way : w.waiting ≤ w.stopping
  stoppable : running w.session.server_thread && not w.session.has_stop_tx ≡ false
  single : w.overlapped ≡ false → w.live ≤ 1
  apart : w.overlapped ≡ false → 0 < w.pending + w.ready → w.stopping ≡ 0
  quiet : w.overlapped ≡ false → running w.session.server_thread ≡ true → w.stopping ≡ 0
  ready_timed : w.overlapped ≡ false → 0 < w.ready → is_set w.session.start_time ≡ true
  timed :
      w.overlapped ≡ false
      → running w.session.server_thread && not (is_set w.session.start_time) ≡ false

module _ {F : Type 0} where
  launched-IsSingle :
      (c : GuiConfig) (o : Outcome Str (List DialoutMode)) (w : Window F)
      → 0 < w.ready
      → IsSingle w
      → IsSingle (went w (launched c o w.session))
  launched-IsSingle c (err e) w h i = record {
    known = ground (arith, i.known, i.alone, h);
    alone = omega (arith, i.alone, h);
    under_way = i.under_way;
    stoppable = refl;
    single = λ o. ground (arith, i.single o);
    apart = λ o k. i.apart o (omega (arith, k));
    quiet = λ o k. absurd (ground arith);
    ready_timed = λ o k. i.ready_timed o (omega (arith, k));
    timed = λ o. refl;
  }
  launched-IsSingle c (ok modes) w h i = record {
    known = ground (arith, i.known, i.alone, h);
    alone = omega (arith, i.alone, h);
    under_way = i.under_way;
    stoppable = refl;
    single = λ o. ground (arith, i.known, i.alone, h, i.under_way, i.apart o (omega (arith, h)));
    apart = λ o k. i.apart o (omega (arith, k));
    quiet = λ o k. i.apart o (omega (arith, h));
    ready_timed = λ o k. i.ready_timed o h;
    timed = λ o. ground (arith, i.ready_timed o h);
  }

  prepared-same :
      (c : GuiConfig) (now : ℕ) (opened : Outcome Str (F × Str × Str)) (s : Session F)
      → ((prepared c now opened s).server_thread ≡ s.server_thread)
        × (is_set (prepared c now opened s).start_time ≡ true)
  unfolding prepared
  prepared-same c now (ok opened) s = ground arith
  prepared-same c now (err e) s = ground arith

  prepared-IsSingle :
      (s : Session F) (w : Window F)
      → 0 < w.pending
      → (s.server_thread ≡ w.session.server_thread) × (is_set s.start_time ≡ true)
      → IsSingle w
      → IsSingle (record w { session = s; pending = w.pending - 1; ready = w.ready + 1 })
  prepared-IsSingle s w h (same, clock) i =
      let still = ap running same in
      record {
        known = i.known ∙ ap (λ b. one_if b + w.waiting) (sym still);
        alone = ground (arith, i.alone, h, still);
        under_way = i.under_way;
        stoppable = ground (arith, i.alone, h, still);
        single = i.single;
        apart = λ o k. i.apart o (omega (arith, h));
        quiet = λ o k. i.quiet o (sym still ∙ k);
        ready_timed = λ o k. clock;
        timed = λ o. ground (arith, clock);
      }

  finish_runs :
      (w : Window F) (t : Thread)
      → w.session.server_thread ≡ some t
      → t.is_finished ≡ false
      → one_if (running w.session.server_thread) ≡ 1
  finish_runs w t h k = ap (λ o. one_if (running o)) h ∙ ground (arith, k)

  Step-IsSingle : {w v : Window F} → Step w v → IsSingle w → IsSingle v
  Step-IsSingle (refuse h) i = i
  Step-IsSingle (check h k) i = record {
    known = ground (arith, i.known, h);
    alone = omega (arith, k);
    under_way = i.under_way;
    stoppable = refl;
    single = λ o. i.single (ground arith);
    apart = λ o m. ground arith;
    quiet = λ o m. absurd (ground arith);
    ready_timed = λ o m. i.ready_timed (ground arith) m;
    timed = λ o. refl;
  }
  Step-IsSingle {w} (prepare c now opened h) i =
      prepared-IsSingle (prepared c now opened w.session) w h (prepared-same c now opened w.session)
        i
  Step-IsSingle {w} (set_going c h) i = launched-IsSingle c (dialout_modes c.modes) w h i
  Step-IsSingle stop i = record {
    known = omega (arith, i.known);
    alone = omega (arith, i.alone);
    under_way = omega (arith, i.under_way, i.alone);
    stoppable = refl;
    single = λ o. i.single (ground arith);
    apart = λ o m. ground (arith, m);
    quiet = λ o m. absurd (ground arith);
    ready_timed = λ o m. ground (arith, m);
    timed = λ o. refl;
  }
  Step-IsSingle (joined h) i = record {
    known = omega (arith, i.known, h);
    alone = i.alone;
    under_way = omega (arith, i.under_way);
    stoppable = i.stoppable;
    single = λ o. omega (arith, i.single o);
    apart = i.apart;
    quiet = i.quiet;
    ready_timed = i.ready_timed;
    timed = i.timed;
  }
  Step-IsSingle {w} (close h) i = record {
    known = i.known;
    alone = i.alone;
    under_way = omega (arith, h);
    stoppable = i.stoppable;
    single = i.single;
    apart = λ o m. omega (arith, i.apart o m);
    quiet = λ o m. omega (arith, i.quiet o m);
    ready_timed = λ o m. absurd (omega (arith, h, i.apart o (omega (arith, m))));
    timed = λ o. elim (Bool-cases (running w.session.server_thread)) [
      | inl runs ↦ absurd (omega (arith, h, i.quiet o runs))
      | inr idle ↦ rw idle refl
    ];
  }
  Step-IsSingle {w} (finish t h k) i = record {
    known = omega (arith, i.known, finish_runs w t h k);
    alone = omega (arith, i.alone);
    under_way = i.under_way;
    stoppable = refl;
    single = λ o. omega (arith, i.single o);
    apart = i.apart;
    quiet = λ o m. absurd (ground arith);
    ready_timed = i.ready_timed;
    timed = λ o. refl;
  }
  Step-IsSingle message i = record {
    known = i.known;
    alone = i.alone;
    under_way = i.under_way;
    stoppable = i.stoppable;
    single = i.single;
    apart = i.apart;
    quiet = i.quiet;
    ready_timed = i.ready_timed;
    timed = i.timed;
  }
  Step-IsSingle client i = record {
    known = i.known;
    alone = i.alone;
    under_way = i.under_way;
    stoppable = i.stoppable;
    single = i.single;
    apart = i.apart;
    quiet = i.quiet;
    ready_timed = i.ready_timed;
    timed = i.timed;
  }

  Reach-IsSingle : {w : Window F} → Reach w → IsSingle w
  Reach-IsSingle (here s none') =
      let idle = ap running none' in
      record {
        known = ground (arith, idle);
        alone = ground (arith, idle);
        under_way = omega arith;
        stoppable = ground (arith, idle);
        single = λ o. omega arith;
        apart = λ o m. refl;
        quiet = λ o m. refl;
        ready_timed = λ o m. absurd (omega (arith, m));
        timed = λ o. ground (arith, idle);
      }
  Reach-IsSingle (next r st) = Step-IsSingle st (Reach-IsSingle r)

  -- In every window that is reached by its commands, in any order, where a start has three steps and a
  -- stop three, that may come between each other, but no two starts do, and with the ends of server
  -- threads and messages anywhere between them: each server that runs is the one that the statistics
  -- show, which a stop can then signal, or one that a stop waits for. If no start and stop were under
  -- way at the same time so far, at most one server runs, and the time of the start of a server that
  -- the statistics show is known.
  pub one_server :
      {w : Window F} (now : ℕ)
      → Reach w
      → let shown = (get_stats now w.session).is_running in
        (w.live ≡ one_if shown + w.waiting)
        × (shown && not w.session.has_stop_tx ≡ false)
        × ((w.overlapped || leb w.live 1) ≡ true)
        × ((w.overlapped || not (shown && not (is_set w.session.start_time))) ≡ true)
  unfolding get_stats
  one_server {w} now r =
      let i = Reach-IsSingle r in
      (
        i.known,
        i.stoppable,
        elim (Bool-cases w.overlapped) [
          | inl late ↦ rw late refl
          | inr apart ↦ ground (arith, apart, i.single apart)
        ],
        elim (Bool-cases w.overlapped) [
          | inl late ↦ rw late refl
          | inr apart ↦ ground (arith, apart, i.timed apart)
        ],
      )
