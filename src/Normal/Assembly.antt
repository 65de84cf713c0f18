-- ===== src/Normal/Assembly.antt =====
-- From the fragments on the stream to the lines in the log.
use grpc_server_rust.Prelude.{
  ℕ, zero, suc, ◌+◌, ◌^◌, ◌≤◌, ◌≡◌, refl, sym, ap, ap₂, ◌∙◌, arith, false, none, some, List, [],
  ◌∷◌, ◌++◌, append-nil, map, Bytes, Str, length, concat, All, list_laws,
}
use grpc_server_rust.Prelude.Int.{ℤ}
use grpc_server_rust.Log.{LogLine}
use grpc_server_rust.Wire.{Json, DialoutCodec, DialoutMsg, DeviceInfo}
use grpc_server_rust.Stream.{message}
use grpc_server_rust.Models.Stats.{incr}
use grpc_server_rust.Chunk.{Delivery, entry}
use grpc_server_rust.Chunk.Run.{Message, add_message, run}
use grpc_server_rust.Chunk.Assembly.{IsQuiet, numbered, answers, assemble_in_order}
use grpc_server_rust.Chunk.Stalled.{AllStalled, IsSingle, run_single_delivers_nothing}
use grpc_server_rust.Normal.{
  DialoutConfig, Call, delivery_lines, json_lines, on_message, dialout_loop,
}

-- The call of `add` that a message leads to.
abbrev pub to_message : DialoutCodec → DialoutMsg → Message
to_message codec msg = record {
  device_msg = codec.encode_device msg.device_msg;
  sensor_path = msg.sensor_path;
  json_data = msg.json_data;
  total_size = elim msg.chunk_msg [ none ↦ none | some c ↦ some c.total_size ];
  total_fragments = elim msg.chunk_msg [ none ↦ none | some c ↦ some c.total_fragments ];
  node_id = elim msg.chunk_msg [ none ↦ none | some c ↦ some c.node_id ];
}

-- A text in fragments, as the device sends it.
abbrev pub fragments : DeviceInfo → Str → ℤ → ℕ → ℕ → List Bytes → List DialoutMsg
fragments device path size total start [] = []
fragments device path size total start (f ∷ fs) =
    record {
      device_msg = device;
      sensor_path = path;
      json_data = f;
      chunk_msg = some (record { total_size = size; total_fragments = total; node_id = start });
    }
    ∷ fragments device path size total (start + 1) fs

map-to_message-fragments :
    (codec : DialoutCodec) (device : DeviceInfo) (path : Str) (size : ℤ) (total start : ℕ)
    (fs : List Bytes)
    → map (to_message codec) (fragments device path size total start fs)
      ≡ numbered (codec.encode_device device) path size total start fs
map-to_message-fragments codec device path size total start [] = refl
map-to_message-fragments codec device path size total start (f ∷ fs) =
    ap₂ (λ m ms. m ∷ ms) refl (map-to_message-fragments codec device path size total (start + 1) fs)

-- The counter after so many messages.
abbrev pub count_on : ℕ → ℕ → ℕ
count_on zero c = c
count_on (suc n) c = count_on n (incr c)

module _ (json : Json) (config : DialoutConfig) (peer : Str) where
  -- The lines of a run of deliveries, from a count of the messages before it.
  abbrev pub lines_of : ℕ → List (Str × Delivery) → List LogLine
  lines_of count [] = []
  lines_of count ((path, d) ∷ ds) =
      delivery_lines json config peer (incr count) path d ++ lines_of (incr count) ds

  lines_of-answers :
      (n count : ℕ) (path : Str) (d : Bytes × Bytes)
      → lines_of count (answers path n d)
        ≡ delivery_lines json config peer (count_on (suc n) count) path (some d)
  unfolding delivery_lines
  lines_of-answers zero count path d = append-nil _
  lines_of-answers (suc n) count path d = lines_of-answers n (incr count) path d

  lines_of-nothing :
      (count : ℕ) (ds : List (Str × Delivery)) → All (λ d. d.1 ≡ none) ds → lines_of count ds ≡ []
  unfolding delivery_lines
  lines_of-nothing count [] h = refl
  lines_of-nothing count ((path, d) ∷ ds) h = rw (h.0) (lines_of-nothing (incr count) ds h.1)

module _ (json : Json) (codec : DialoutCodec) (config : DialoutConfig) (peer : Str) {S : Type 0}
    (show : S → Str) where
  abbrev pub feed : Call → List DialoutMsg → Call
  feed s ms = (dialout_loop json codec config peer show s (map message ms)).0

  module _ (parsing : config.performance_mode ≡ false) (assembling : config.orignal ≡ false) where
    on_message_lem :
        (s : Call) (msg : DialoutMsg)
        → let s' = on_message json codec config peer s msg in
          let done = add_message s.chunk_records (to_message codec msg) in
          (s'.chunk_records ≡ done.0)
          × (s'.log
              ≡ s.log
                ++ delivery_lines json config peer (incr s.client_count) msg.sensor_path done.1)
          × (s'.client_count ≡ incr s.client_count)
    unfolding on_message
    on_message_lem s msg = ground (arith, parsing, assembling)

    -- In the mode that parses, the loop keeps in its records what `ChunkRecords` keeps of the same
    -- calls of `add`, and it logs the lines of each delivery, in order, and nothing else.
    pub dialout_loop-run :
        (s : Call) (ms : List DialoutMsg)
        → ((feed s ms).chunk_records ≡ (run s.chunk_records (map (to_message codec) ms)).0)
          × ((feed s ms).log
              ≡ s.log
                ++ lines_of json config peer s.client_count
                    (run s.chunk_records (map (to_message codec) ms)).1)
    unfolding dialout_loop run
    dialout_loop-run s [] = (refl, sym (append-nil s.log))
    dialout_loop-run s (m ∷ ms) =
        let (a, b, c) = on_message_lem s m in
        let ih = dialout_loop-run (on_message json codec config peer s m) ms in
        (ih.0 ∙ ap (λ r. (run r (map (to_message codec) ms)).0) a, ih.1 ∙ simp (a, b, c, list_laws))

    -- A call that parses (neither performance nor original mode) and is sent a text in two or more
    -- fragments, announced with the right count and numbered in order by node ids below 2 ^ 64, on
    -- a path where no record waits for one of these ids, logs nothing but the lines of the whole
    -- text, under the count of the last fragment.
    pub fragments_logged_whole :
        (s : Call) (device : DeviceInfo) (path : Str) (size : ℤ) (start : ℕ) (f g : Bytes)
        (fs : List Bytes)
        → IsQuiet start (length (f ∷ g ∷ fs)) (entry s.chunk_records path)
        → start + length (f ∷ g ∷ fs) ≤ 2 ^ 64
        → (feed s (fragments device path size (length (f ∷ g ∷ fs)) start (f ∷ g ∷ fs))).log
          ≡ s.log
            ++ json_lines json config peer
                (count_on (length (f ∷ g ∷ fs)) s.client_count)
                path
                (concat (f ∷ g ∷ fs))
    unfolding delivery_lines
    fragments_logged_whole s device path size start f g fs quiet fits =
        let total : ℕ = length (f ∷ g ∷ fs) in
        let sent = fragments device path size total start (f ∷ g ∷ fs) in
        let same = map-to_message-fragments codec device path size total start (f ∷ g ∷ fs) in
        let replies =
          assemble_in_order s.chunk_records (codec.encode_device device) path size start f g fs
            quiet fits in
        (dialout_loop-run s sent).1
        ∙ ap (λ ms. s.log ++ lines_of json config peer s.client_count (run s.chunk_records ms).1)
            same
        ∙ ap (λ ds. s.log ++ lines_of json config peer s.client_count ds) replies.0
        ∙ ap (λ ls. s.log ++ ls)
            (lines_of-answers json config peer (suc (length fs)) s.client_count path
              (codec.encode_device device, concat (f ∷ g ∷ fs)))

    -- A call that parses, from records that are all stalled, and is sent chunked messages that are
    -- each announced as at most one fragment, logs nothing at all about them.
    pub single_fragments_not_logged :
        (s : Call) (ms : List DialoutMsg)
        → AllStalled s.chunk_records
        → All IsSingle (map (to_message codec) ms)
        → (feed s ms).log ≡ s.log
    single_fragments_not_logged s ms stalled single =
        (dialout_loop-run s ms).1
        ∙ ap (λ ls. s.log ++ ls)
            (lines_of-nothing json config peer s.client_count _ (
              run_single_delivers_nothing s.chunk_records (map (to_message codec) ms) stalled
                single))
        ∙ append-nil s.log
