-- ===== src/Gui/Overlap.antt =====
-- The commands of src-tauri/src/gui.rs where starts overlap: each lock of `start_server` and
-- `stop_server` is a step, so that several starts may be under way. A server has a number, in the order
-- of the spawns; its handle and its sender are told apart by it. A server is told to stop when its
-- sender sends or is dropped: `stop_rx.changed()` returns in both cases.
use grpc_server_rust.Prelude.{
  ℕ, ◌+◌, ◌≡◌, refl, arith, Bool, true, false, ◌&&◌, ◌||◌, not, ◌==◌, Option, none, some, List, [],
  ◌∷◌, retain,
}

abbrev pub has : List ℕ → ℕ → Bool
has [] i = false
has (j ∷ js) i = j == i || has js i

abbrev pub without : ℕ → List ℕ → List ℕ
without i js = retain (λ j. not (j == i)) js

-- The servers that run and those that were told to stop; what the session holds, the handle of a server
-- and the sender of one; and the starts under way: how many are past the first check, and the servers
-- that they have spawned, before and after the session got the handle.
pub record Store : Type 0 where
  pub running : List ℕ
  pub told : List ℕ
  pub server_thread : Option ℕ
  pub stop_tx : Option ℕ
  pub checked : ℕ
  pub spawned : List ℕ
  pub handed : List ℕ
  pub next_id : ℕ

abbrev pub empty_store : Store
empty_store = record {
  running = [];
  told = [];
  server_thread = none;
  stop_tx = none;
  checked = 0;
  spawned = [];
  handed = [];
  next_id = 0;
}

-- A sender is dropped, or sends.
abbrev pub drop_sender : Option ℕ → List ℕ → List ℕ
drop_sender none told = told
drop_sender (some i) told = i ∷ told

-- `if let Some(handle) = … { if !handle.is_finished() …`
unfoldable pub is_busy : Store → Bool
is_busy s = elim s.server_thread [ none ↦ false | some i ↦ has s.running i ]

-- The first section of `start_server`, where it goes on.
abbrev pub check_start : Store → Store
check_start s = record s {
  server_thread = none;
  told = drop_sender s.stop_tx s.told;
  stop_tx = none;
  checked = s.checked + 1;
}

-- `std::thread::spawn`, with a new channel
abbrev pub spawn : Store → ℕ → Store
spawn s checked = record s {
  checked = checked;
  running = s.next_id ∷ s.running;
  spawned = s.next_id ∷ s.spawned;
  next_id = s.next_id + 1;
}

-- `*state.server_thread.lock().unwrap() = Some(handle)`: a handle that was there is dropped, and its
-- thread goes on.
abbrev pub hand_over : Store → ℕ → Store
hand_over s i = record s {
  server_thread = some i;
  spawned = without i s.spawned;
  handed = i ∷ s.handed;
}

-- `*state.stop_tx.lock().unwrap() = Some(stop_tx)`: a sender that was there is dropped.
abbrev pub keep_sender : Store → ℕ → Store
keep_sender s i = record s {
  told = drop_sender s.stop_tx s.told;
  stop_tx = some i;
  handed = without i s.handed;
}

-- The first lock of `stop_server`.
unfoldable pub send_stop : Store → Store
send_stop s = record s { told = drop_sender s.stop_tx s.told; stop_tx = none }

pub data Step (s : Store) : Store → Type 0 where
  check : is_busy s ≡ false → Step s (check_start s)
  refuse : is_busy s ≡ true → Step s s
  unknown_mode : (n : ℕ) → s.checked ≡ n + 1 → Step s (record s { checked = n })
  start : (n : ℕ) → s.checked ≡ n + 1 → Step s (spawn s n)
  hand : (i : ℕ) → has s.spawned i ≡ true → Step s (hand_over s i)
  keep : (i : ℕ) → has s.handed i ≡ true → Step s (keep_sender s i)
  stop : Step s (send_stop s)
  take_handle : Step s (record s { server_thread = none })
  end : (i : ℕ) → Step s (record s { running = without i s.running })

pub data Reach : Store → Type 0 where
  here : Reach empty_store
  next : {s t : Store} → Reach s → Step s t → Reach t

has-without : (i j : ℕ) (js : List ℕ) → has (without i js) j ≡ (has js j && not (i == j))
has-without i j [] = refl
has-without i j (k ∷ js) = ground (arith, has-without i j js)

-- Where the sender of a server is: used up, in the session, or with a start that is under way.
unfoldable pub is_accounted : Store → ℕ → Bool
is_accounted s i = has (drop_sender s.stop_tx s.told) i || (has s.spawned i || has s.handed i)

IsAccounted : Store → Type 0
unfolding is_accounted
IsAccounted s = (i : ℕ) → has s.running i ≡ true → is_accounted s i ≡ true

Step-IsAccounted : {s t : Store} → Step s t → IsAccounted s → IsAccounted t
unfolding IsAccounted is_accounted send_stop
Step-IsAccounted {s} (check h) a i r = ground (arith, a i)
Step-IsAccounted (refuse h) a i r = a i r
Step-IsAccounted (unknown_mode n h) a i r = a i r
Step-IsAccounted {s} (start n h) a i r = ground (arith, a i)
Step-IsAccounted {s} (hand j h) a i r = ground (arith, a i, has-without j i s.spawned)
Step-IsAccounted {s} (keep j h) a i r = ground (arith, a i, has-without j i s.handed)
Step-IsAccounted {s} stop a i r = ground (arith, a i)
Step-IsAccounted take_handle a i r = a i r
Step-IsAccounted {s} (end j) a i r = ground (arith, a i, has-without j i s.running)

Reach-IsAccounted : {s : Store} → Reach s → IsAccounted s
unfolding IsAccounted is_accounted
Reach-IsAccounted here i r = ground arith
Reach-IsAccounted (next r st) i h = Step-IsAccounted st (Reach-IsAccounted r) i h

-- However starts, stops and ends of servers interleave, with starts that overlap: of the servers that
-- run, the stop command tells each one to stop that was not told before, whether or not the session
-- holds its handle, but for those whose start is still under way and has not stored their sender.
pub stop_tells_all :
    {s : Store} (i : ℕ)
    → Reach s
    → has s.running i ≡ true
    → (has (send_stop s).told i || (has s.spawned i || has s.handed i)) ≡ true
unfolding IsAccounted is_accounted send_stop
stop_tells_all i r h = Reach-IsAccounted r i h
