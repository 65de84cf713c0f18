-- ===== src/LogBridge.antt =====
-- src-tauri/src/gui.rs: the bridge that carries log events to the window and to the log file. The
-- producers are all threads that log (`on_event`), the consumer is one task that polls.
pub mod Backlog
pub mod Rotation
pub mod Events
pub mod Sequential
pub mod Visitor
use grpc_server_rust.Prelude.{
  take, ℕ, zero, suc, ◌+◌, ◌-◌, ◌%◌, ◌^◌, ◌<◌, ◌≤◌, ◌≡◌, Bool, true, false, ◌&&◌, ltb, leb, ◌==◌,
  Option, none, some, List, [], ◌∷◌, ◌++◌, Str, str, length, take, drop, str_eq, starts_with,
  ends_with, if◌then◌else◌,
}
use grpc_server_rust.Prelude.Paths.{join}
use grpc_server_rust.Log.{newline}
use grpc_server_rust.LogFiles.{LogFile, cleanup_old_logs}

-- `LogVisitor::record_debug` of the message: the text of `{:?}` without the quotes around it. A text
-- that is one quote would panic there.
unfoldable pub unquoted : Str → Option Str
unfolding starts_with ends_with
unquoted debug_str =
    if starts_with debug_str (34 ∷ []) && ends_with debug_str (34 ∷ [])
    then (if ltb (length debug_str) 2
        then none
        else some (take (length debug_str - 2) (drop 1 debug_str)))
    else some debug_str

-- The text of an event, of its level and the message of the visitor.
unfoldable pub event_text : Str → Str → Str
event_text level msg = if str_eq msg [] then level else level ++ str ": " ++ msg

abbrev pub max_channel_backlog : ℕ
max_channel_backlog = 2000

-- The channel with its counter. `checked` producers have read a counter below the threshold and
-- have not sent yet, `sent` producers have sent and not counted yet. The consumer holds `received`
-- messages that it has not subtracted yet, and `drained` tells that it has seen the channel empty.
pub record Bridge : Type 0 where
  pub counter : ℕ
  pub queue : ℕ
  pub checked : ℕ
  pub sent : ℕ
  pub received : ℕ
  pub drained : Bool

abbrev pub start_bridge : Bridge
start_bridge = record {
  counter = 0;
  queue = 0;
  checked = 0;
  sent = 0;
  received = 0;
  drained = false;
}

-- One atomic operation of one of the threads that log, or of the consumer. The counter is a usize:
-- `fetch_add` and `fetch_sub` wrap.
pub data Step (threads : ℕ) (s : Bridge) : Bridge → Type 0 where
  load :
      ltb s.counter max_channel_backlog ≡ true
      → s.checked + s.sent < threads
      → Step threads s (record s { checked = s.checked + 1 })
  send :
      0 < s.checked
      → Step threads s
          (record s { checked = s.checked - 1; queue = s.queue + 1; sent = s.sent + 1 })
  count :
      0 < s.sent
      → Step threads s (record s { sent = s.sent - 1; counter = (s.counter + 1) % 2 ^ 64 })
  receive :
      0 < s.queue
      → s.drained ≡ false
      → Step threads s (record s { queue = s.queue - 1; received = s.received + 1 })
  see_empty : s.queue ≡ 0 → s.drained ≡ false → Step threads s (record s { drained = true })
  subtract :
      s.drained ≡ true
      → Step threads s (record s {
        counter = (s.counter + (2 ^ 64 - s.received % 2 ^ 64)) % 2 ^ 64;
        received = 0;
        drained = false;
      })

pub data Reach (threads : ℕ) : Bridge → Type 0 where
  here : Reach threads start_bridge
  next : {s t : Bridge} → Reach threads s → Step threads s t → Reach threads t

-- What the consumer does: an event for the window, and on the disk a flush, the files that a cleanup
-- asks to be removed, a file that is opened to append to it (an old one where the name is there), and
-- the bytes of a line that reach it.
pub data Effect : Type 0 where
  emit : Str → Effect
  flush : Str → Effect
  remove : List LogFile → Effect
  create : Str → Effect
  append : Str → Str → Effect

-- A message with what the system says while it is written: the time of the line, the time for a
-- file name, the directory, whether a new file can be opened, and how many bytes of the line
-- `write_all` brings to the file; below the length of the line it has failed, which nothing looks at.
pub record Message : Type 0 where
  pub text : Str
  pub line_time : Str
  pub file_time : Str
  pub entries : List LogFile
  pub can_open : Bool
  pub wrote : ℕ

-- The open file, the counter of bytes, and the effects so far. The counter has the bytes of the lines
-- that were handed to `write_all` since the last rotation, whether or not they reached the file, and
-- not what an opened file held before.
pub record Writer : Type 0 where
  pub file : Option Str
  pub size : ℕ
  pub effects : List Effect

pub record Limits : Type 0 where
  pub max_bytes : ℕ
  pub max_num : ℕ
  pub dir : Str
  pub prefix : Str

-- How a pass over the messages goes on: with the next, not at all (`break`), or by a panic.
pub data Pass : Type 0 where
  goes_on stops panics : Writer → Pass

unfoldable pub line_of : Message → Str
line_of m = m.line_time ++ str " " ++ m.text ++ newline

unfoldable pub new_name : Limits → Message → Str
new_name limits m = join limits.dir (limits.prefix ++ str "_" ++ m.file_time ++ str ".log")

abbrev pub flushes : Option Str → List Effect
flushes none = []
flushes (some f) = flush f ∷ []

-- The opening of the next file, which works or not.
abbrev pub reopen : Limits → Message → List Effect → Bool → Writer → Pass
reopen limits m effects true w = goes_on (record {
  file = some (new_name limits m);
  size = 0;
  effects = effects ++ create (new_name limits m) ∷ [];
})
reopen limits m effects false w = stops (record w { effects = effects })

-- The rotation, by what `cleanup_old_logs` does.
unfoldable pub rotate : Limits → Message → Option (List LogFile × List LogFile) → Writer → Pass
unfolding new_name
rotate limits m none w = panics (record w { effects = w.effects ++ flushes w.file })
rotate limits m (some (removed, kept)) w =
    reopen limits m (w.effects ++ (flushes w.file ++ remove removed ∷ [])) m.can_open w

unfoldable pub write_line : Str → ℕ → Writer → Writer
write_line line wrote w = elim w.file [
  | none ↦ w
  | some f ↦ record {
    file = some f;
    size = w.size + length line;
    effects = w.effects ++ append f (take wrote line) ∷ [];
  }
]

abbrev pub then_write : Str → ℕ → Pass → Pass
then_write line wrote (goes_on w) = goes_on (write_line line wrote w)
then_write line wrote (stops w) = stops w
then_write line wrote (panics w) = panics w

unfoldable pub write_message : Limits → Writer → Message → Pass
unfolding line_of rotate write_line
write_message limits w m =
    let line = line_of m in
    then_write line m.wrote (
      if ltb limits.max_bytes (w.size + length line)
      then rotate limits m (cleanup_old_logs m.entries limits.prefix limits.max_num) w
      else goes_on w)

-- The loop over the messages of one poll.
abbrev pub on_pass : (Writer → Pass) → Pass → Pass
on_pass f (goes_on w) = f w
on_pass f (stops w) = stops w
on_pass f (panics w) = panics w

unfoldable pub write_messages : Limits → List Message → Writer → Pass
unfolding write_message
write_messages limits [] w = goes_on w
write_messages limits (m ∷ ms) w = on_pass (write_messages limits ms) (write_message limits w m)

-- The counter of bytes starts again where no file is open.
abbrev pub counted_for : Option Str → Writer → Writer
counted_for none w = record w { size = 0 }
counted_for (some f) w = w

-- `messages.join("\n")`
unfoldable pub joined : List Message → Str
joined [] = []
joined (m ∷ []) = m.text
joined (m ∷ n ∷ ms) = m.text ++ (newline ++ joined (n ∷ ms))

abbrev pub emitted : Bool → List Message → Writer → Writer
emitted true ms w = w
emitted false ms w = record w { effects = w.effects ++ emit (joined ms) ∷ [] }

-- One poll that has received messages.
unfoldable pub poll : Limits → Bool → List Message → Writer → Pass
unfolding write_messages joined
poll limits only_log ms w = write_messages limits ms (emitted only_log ms (counted_for w.file w))
