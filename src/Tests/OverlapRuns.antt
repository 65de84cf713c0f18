-- ===== src/Tests/OverlapRuns.antt =====
-- Starts of src-tauri/src/gui.rs that overlap.
use grpc_server_rust.Prelude.{◌≡◌, refl, true, false, ◌||◌}
use grpc_server_rust.Gui.Overlap.{
  Store, has, is_busy, send_stop, empty_store, check_start, spawn, hand_over, keep_sender, without,
  check, start, hand, keep, end, Reach, here, next, stop_tells_all,
}

-- Two starts pass the check before either has spawned its server. The second server is handed over
-- last, and the first one's sender is stored last; then the second server, whose sender was dropped,
-- ends.
abbrev both_checked : Store
both_checked = check_start (check_start empty_store)

abbrev both_spawned : Store
both_spawned = spawn (spawn both_checked 1) 0

abbrev both_stored : Store
both_stored = keep_sender (keep_sender (hand_over (hand_over both_spawned 0) 1) 1) 0

abbrev one_ended : Store
one_ended = record both_stored { running = without 1 both_stored.running }

both_spawned-Reach : Reach both_spawned
unfolding is_busy
both_spawned-Reach =
    next (next (next (next here (check refl)) (check refl)) (start 1 refl)) (start 0 refl)

one_ended-Reach : Reach one_ended
one_ended-Reach =
    next
      (next (next (next (next both_spawned-Reach (hand 0 refl)) (hand 1 refl)) (keep 1 refl))
        (keep 0 refl))
      (end 1)

-- The window takes the server that runs for one that has ended.
hidden_server : (is_busy one_ended ≡ false) × (has one_ended.running 0 ≡ true)
unfolding is_busy
hidden_server = (refl, refl)

stop_tells_all_example :
    (has (send_stop one_ended).told 0 || (has one_ended.spawned 0 || has one_ended.handed 0)) ≡ true
stop_tells_all_example = stop_tells_all 0 one_ended-Reach refl
