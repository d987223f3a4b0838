-- ===== src/Folders/GameCheck/Examples.antt =====
-- Runs of the game check on concrete readings.
use leaf_syncthing_pak.Base.{
  ℕ, ◌+◌, ◌*◌, ◌≤◌, ◌<◌, true, false, ◌≡◌, refl, none, List, [], ◌∷◌, any, All, Text, codes, lookup,
  insert, pos, arith,
}
use leaf_syncthing_pak.Folders.Types.{ConfiguredFolder}
use leaf_syncthing_pak.Rest.Replies.{got, lost, ◌>>=◌, UiDbStatus, Responses}
use leaf_syncthing_pak.Rest.Totals.{
  nonnegative, bounded_byte_total, bounded_item_total, bounded_state, add_items,
}
use leaf_syncthing_pak.Rest.Game.{
  by_device_id, waiting_peers, waiting_of_folders, add_pending, add_completion, add_local, add_peer,
  add_peers, check_activity, add_read, add_reads, read_game_check_status,
}
use leaf_syncthing_pak.Rest.Game.Added.{reply_is}
use leaf_syncthing_pak.Rest.Game.InSync.{
  all_in_sync, is_current_status, read_game_check_status-current,
}
use leaf_syncthing_pak.Folders.GameCheck.Loop.{
  Reading, Message, waiting, stop, ms, unavailable, ack_budget, first_reply_budget, read_timeout,
  first_failure, is_news, after_status, after_failure, after_read, read_end, turn, send_time,
  check_loop, run_game_check,
}
use leaf_syncthing_pak.Folders.GameCheck.Timely.{run_game_check-first_reply, IsAttentive}
use leaf_syncthing_pak.Folders.GameCheck.Replies.{IsOrderly, run_game_check-IsOrderly}
use leaf_syncthing_pak.Folders.GameCheck.Stops.{is_stop, reads, run_game_check-stop}

abbrev device_a : Text
device_a = codes "A"

abbrev self_s : Text
self_s = codes "S"

abbrev shared_folder : ConfiguredFolder
shared_folder = record {
  id = codes "f";
  label = [];
  kind = codes "saves";
  path = codes "/s";
  type = codes "sendreceive";
  marker_name = codes "m";
  paused = false;
  versioning_type = codes "simple";
  versioning_fs_path = [];
  versioning_fs_type = [];
  devices = self_s ∷ device_a ∷ [];
}

abbrev idle_status : UiDbStatus
idle_status = record {
  state = codes "idle";
  local_bytes = pos 10;
  global_bytes = pos 10;
  need_bytes = pos 0;
  need_total_items = pos 0;
  local_files = pos 1;
  local_directories = pos 0;
  local_symlinks = pos 0;
  global_files = pos 1;
  global_directories = pos 0;
  global_symlinks = pos 0;
  errors = pos 0;
  pull_errors = pos 0;
  state_change = [];
}

-- A peer that still needs so many items.
abbrev peer_needs : ℕ → Responses
peer_needs items = record {
  devices = got (
      (record {
        device_id = device_a;
        name = codes "A";
        paused = false;
        introducer = false;
        introduced_by = [];
      })
      ∷ []);
  connections = got (
      (
        device_a,
        record {
          connected = true;
          paused = false;
          address = [];
          type = [];
          is_local = true;
          in_bytes = pos 0;
          out_bytes = pos 0;
        },
      )
      ∷ []);
  status = λ id. got idle_status;
  completion = λ device id. got (record {
    need_bytes = pos 0;
    need_items = pos items;
    need_deletes = pos 0;
    remote_state = codes "valid";
  });
}

read_game_check_status-current_example :
    reply_is is_current_status (read_game_check_status (peer_needs 3) (shared_folder ∷ []) self_s)
    ≡ all_in_sync (peer_needs 3) (shared_folder ∷ []) self_s
read_game_check_status-current_example =
    read_game_check_status-current (peer_needs 3) (shared_folder ∷ []) self_s

pending_status :
    read_game_check_status (peer_needs 3) (shared_folder ∷ []) self_s
    ≡ got (record { current = false; pending_items = pos 3; pending_bytes = pos 0 })
unfolding read_game_check_status ◌>>=◌ by_device_id waiting_peers waiting_of_folders add_pending
    add_completion add_local add_peer add_peers check_activity add_read add_reads nonnegative
    bounded_byte_total bounded_item_total add_items bounded_state lookup insert
pending_status = refl

abbrev refused : ℕ → Reading
refused took = record {
  read_result = lost false;
  took = took;
  cancelled = false;
  sends = true;
  cancelled_waiting = false;
}

abbrev ten_refused : List Reading
ten_refused =
    refused 0
    ∷ refused 1
    ∷ refused 0
    ∷ refused 0
    ∷ refused 0
    ∷ refused 0
    ∷ refused 0
    ∷ refused 0
    ∷ refused 0
    ∷ refused 0
    ∷ []

-- An upstream that is still coming up: nothing is sent until the budget of 900 ms is used up.
refused_reply : run_game_check true (pos 1000) 5 ten_refused ≡ (5 + 900 * ms, unavailable) ∷ []
unfolding run_game_check ack_budget first_reply_budget check_loop turn send_time read_end
    read_timeout after_read after_failure first_failure
refused_reply = refl

run_game_check-first_reply_example :
    (t : ℕ) × (m : Message) × (rest : List (ℕ × Message)) × (run_game_check true
        (pos 1000)
        5
        ten_refused
      ≡ (t, m) ∷ rest)
    × (t < 5 + ack_budget (pos 1000))
    × (t ≤ 5 + 900 * ms)
run_game_check-first_reply_example =
    run_game_check-first_reply (pos 1000) 5 ten_refused each (omega arith)
  where
    each : All IsAttentive ten_refused
    each =
        let r : (false ≡ false) × (false ≡ false) × (true ≡ true) = (refl, refl, refl) in
        (r, (r, (r, (r, (r, (r, (r, (r, (r, (r, tt))))))))))

abbrev sync_runs : List (Responses × Reading)
sync_runs = (peer_needs 3, refused 20) ∷ (peer_needs 3, refused 5) ∷ (peer_needs 0, refused 7) ∷ []

-- One waiting reply, none for the status that did not change, and the stop.
sync_replies :
    run_game_check true (pos 1000) 0 (reads (shared_folder ∷ []) self_s sync_runs)
    ≡ (20, waiting (pos 3) (pos 0)) ∷ (1000 * ms + 32, stop) ∷ []
unfolding run_game_check ack_budget first_reply_budget check_loop turn send_time read_end
    read_timeout after_read after_status is_news read_game_check_status ◌>>=◌ by_device_id
    waiting_peers waiting_of_folders add_pending add_completion add_local add_peer add_peers
    check_activity add_read add_reads nonnegative bounded_byte_total bounded_item_total add_items
    bounded_state lookup insert
sync_replies = refl

run_game_check-IsOrderly_example : IsOrderly none (run_game_check true (pos 1000) 5 ten_refused)
run_game_check-IsOrderly_example = run_game_check-IsOrderly true (pos 1000) 5 ten_refused

run_game_check-stop_example :
    any (λ r. all_in_sync r.0 (shared_folder ∷ []) self_s) sync_runs ≡ true
run_game_check-stop_example =
    run_game_check-stop (shared_folder ∷ []) self_s (pos 1000) 0 sync_runs stopped
  where
    stopped :
        any is_stop (run_game_check true (pos 1000) 0 (reads (shared_folder ∷ []) self_s sync_runs))
        ≡ true
    stopped = rw sync_replies refl
