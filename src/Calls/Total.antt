-- ===== src/Calls/Total.antt =====
-- The connections of the services of src-tauri/src/dialout at one address, and what the global counters of
-- src-tauri/src/models.rs come to.
use grpc_server_rust.Prelude.{
  ℕ, zero, suc, ◌+◌, ◌%◌, ◌^◌, ◌<◌, ◌≡◌, refl, ap, ap₂, ◌∙◌, arith, min, List, [], ◌∷◌, Str, length,
  map, sum_of,
}
use grpc_server_rust.Error.{Outcome}
use grpc_server_rust.Wire.{Json, DialoutCodec, DialoutMsg, DialoutV3Args, TelemetryCodec}
use grpc_server_rust.Stream.{Item, messages}
use grpc_server_rust.Models.Stats.{incr_client_count}
use grpc_server_rust.Registry.{Registry}
use grpc_server_rust.Dynamic.{JsonMaker, Reflect}
use grpc_server_rust.Normal
use grpc_server_rust.Gpb
use grpc_server_rust.Gpb.Printing.{V3Config}
use grpc_server_rust.Gnmi
use grpc_server_rust.Gnmi.{Answer}
use grpc_server_rust.Gnmi.Printing.{GnmiConfig, GnmiCodec}
use grpc_server_rust.Calls.{Counters, Call, run_calls, turns_of, handled_alone, handled_by_all}
use grpc_server_rust.Calls.Apart.{run_calls_counts}
use grpc_server_rust.Calls.Loop.{CallLoop, accepted}
use grpc_server_rust.Calls.TwoLayer
use grpc_server_rust.Calls.ThreeLayer
use grpc_server_rust.Calls.Publish
use grpc_server_rust.Calls.Taken.{handled_alone-messages_taken}
use grpc_server_rust.Calls.TwoLayer.{dialout_calls, messages_taken-dialout_calls}
use grpc_server_rust.Calls.ThreeLayer.{dialout_v3_calls, messages_taken-dialout_v3_calls}
use grpc_server_rust.Calls.Publish.{publish_calls, messages_taken-publish_calls}

-- A connection: the address of the client, and what its stream gives. `R` stands for
-- `SubscribeResponse`.
pub data Connection (S R : Type 0) : Type 0 where
  two_layer : Str → List (Item S DialoutMsg) → Connection S R
  three_layer : Str → List (Item S DialoutV3Args) → Connection S R
  gnmi : Str → List (Item S R) → Connection S R

module _ {S R : Type 0} where
  abbrev pub stream_length : Connection S R → ℕ
  stream_length (two_layer peer items) = length items
  stream_length (three_layer peer items) = length items
  stream_length (gnmi peer items) = length items

  -- The messages before the first fault; a gNMI call comes to 65 at most.
  abbrev pub message_count : Connection S R → ℕ
  message_count (two_layer peer items) = length (messages items)
  message_count (three_layer peer items) = length (messages items)
  message_count (gnmi peer items) = min (length (messages items)) 65

  -- Each connection gets more turns than its stream has items.
  abbrev pub Enough : (ℕ → ℕ) → List (Connection S R) → Type 0
  Enough turns [] = Unit {0}
  Enough turns (c ∷ cs) = (stream_length c < turns zero) × Enough (λ k. turns (suc k)) cs

-- The services at one address, as the start of the server makes them.
pub record Services (D K R P : Type 0) : Type 1 where
  pub json : Json
  pub dialout_codec : DialoutCodec
  pub dialout_config : Normal.DialoutConfig
  pub make : JsonMaker json K
  pub reflect : Reflect D K
  pub telemetry_codec : TelemetryCodec
  pub v3_config : V3Config
  pub registry : Outcome Str (Registry D)
  pub gnmi_codec : GnmiCodec R P
  pub gnmi_config : GnmiConfig

-- The variables of a 2-layer call before it is handled.
abbrev pub before : Counters → Normal.Call
before c = record {
  service_count = c.service_count;
  client_count = 0;
  chunk_records = [];
  stats = c.stats;
  log = [];
}

module _ {D K R P : Type 0} (services : Services D K R P) {S : Type 0} (show : S → Str) where
  -- The loops of the services, and the variables with which a call begins.
  abbrev pub two_layer_loop :
      Str → CallLoop Normal.Call TwoLayer.Variables S DialoutMsg (Outcome S Str)
  two_layer_loop peer =
      dialout_calls services.json services.dialout_codec services.dialout_config peer show

  abbrev pub two_layer_start : Counters → Str → Normal.Call
  two_layer_start c peer =
      Normal.opened services.json services.dialout_codec services.dialout_config peer show
        (before c)

  abbrev pub three_layer_loop :
      Str
      → CallLoop ThreeLayer.Full ThreeLayer.Variables S DialoutV3Args
          (Outcome S (List DialoutV3Args))
  three_layer_loop peer =
      dialout_v3_calls services.json services.make services.reflect services.telemetry_codec
        services.v3_config peer services.registry show

  abbrev pub three_layer_start : Counters → Str → ThreeLayer.Full
  three_layer_start c peer = (
    Gpb.opened services.json services.make services.reflect services.telemetry_codec
        services.v3_config peer services.registry show c.stats [],
    c.service_count,
  )

  abbrev pub gnmi_loop : Str → CallLoop Publish.Full Publish.Variables S R (Answer S)
  gnmi_loop peer = publish_calls services.json services.gnmi_codec services.gnmi_config peer show

  abbrev pub gnmi_start : Counters → Str → Gnmi.Call
  gnmi_start c peer =
      Gnmi.opened services.json services.gnmi_codec services.gnmi_config peer show c.stats []

  -- A connection that a service has accepted.
  abbrev pub call_of : Counters → Connection S R → Call
  call_of c (two_layer peer items) = accepted (two_layer_loop peer) (two_layer_start c peer) items
  call_of c (three_layer peer items) =
      accepted (three_layer_loop peer) (three_layer_start c peer) items
  call_of c (gnmi peer items) = accepted (gnmi_loop peer) (gnmi_start c peer, c.service_count) items

  handled_alone-call_of :
      (c d : Counters) (n : ℕ) (k : Connection S R)
      → stream_length k < n
      → handled_alone d n (call_of c k) ≡ message_count k
  handled_alone-call_of c d n (two_layer peer items) h =
      handled_alone-messages_taken (two_layer_loop peer) d n (two_layer_start c peer) items h
      ∙ messages_taken-dialout_calls services.json services.dialout_codec services.dialout_config
          peer show (two_layer_start c peer) items
  handled_alone-call_of c d n (three_layer peer items) h =
      handled_alone-messages_taken (three_layer_loop peer) d n (three_layer_start c peer) items h
      ∙ messages_taken-dialout_v3_calls services.json services.make services.reflect
          services.telemetry_codec services.v3_config peer services.registry show
          (three_layer_start c peer) items
  handled_alone-call_of c d n (gnmi peer items) h =
      handled_alone-messages_taken (gnmi_loop peer) d n (gnmi_start c peer, c.service_count) items h
      ∙ messages_taken-publish_calls services.json services.gnmi_codec services.gnmi_config peer
          show (gnmi_start c peer) c.service_count items (omega arith)

  handled_by_all-call_of :
      (c d : Counters) (turns : ℕ → ℕ) (ks : List (Connection S R))
      → Enough turns ks
      → handled_by_all d turns (map (call_of c) ks) ≡ sum_of message_count ks
  unfolding handled_by_all
  handled_by_all-call_of c d turns [] h = refl
  handled_by_all-call_of c d turns (k ∷ ks) (h, hs) =
      ap₂ (λ a b. a + b) (handled_alone-call_of c d (turns zero) k h)
        (handled_by_all-call_of c d (λ i. turns (suc i)) ks hs)

  -- The counters as the acceptance of a connection leaves them.
  abbrev pub on_accept : Counters → Connection S R → Counters
  on_accept c (two_layer peer items) = TwoLayer.counters_of (two_layer_start c peer)
  on_accept c (three_layer peer items) = ThreeLayer.counters_of (three_layer_start c peer)
  on_accept c (gnmi peer items) = Publish.counters_of (gnmi_start c peer, c.service_count)

  on_accept_counts :
      (c : Counters) (k : Connection S R) → (on_accept c k).stats ≡ incr_client_count c.stats
  on_accept_counts c (two_layer peer items) = refl
  on_accept_counts c (three_layer peer items) = refl
  on_accept_counts c (gnmi peer items) = refl

  abbrev pub accept_all : Counters → List (Connection S R) → Counters
  accept_all c [] = c
  accept_all c (k ∷ ks) = accept_all (on_accept c k) ks

  accept_all_counts :
      (c : Counters) (ks : List (Connection S R))
      → ((accept_all c ks).stats.msg_count ≡ c.stats.msg_count)
        × ((accept_all c ks).stats.client_count % 2 ^ 64
            ≡ (c.stats.client_count + length ks) % 2 ^ 64)
  unfolding incr_client_count
  accept_all_counts c [] = (refl, omega arith)
  accept_all_counts c (k ∷ ks) =
      let (messages, clients) = accept_all_counts (on_accept c k) ks in
      let up = on_accept_counts c k in
      (messages ∙ ap (λ s. s.msg_count) up, omega (arith, clients, ap (λ s. s.client_count) up))

  -- Connections of all three services that are accepted, and then handled in any order until each has
  -- come to its answer: the global client counter has gone up by their number, and the global
  -- message counter by the messages that each of them sent before its first fault, for a gNMI
  -- connection by 65 at most, both modulo 2 ^ 64.
  pub connections_counted :
      (c : Counters) (ks : List (Connection S R)) (schedule : List ℕ)
      → Enough (turns_of schedule) ks
      → let stats = (run_calls (map (call_of c) ks) (accept_all c ks) schedule).1.stats in
        (stats.client_count % 2 ^ 64 ≡ (c.stats.client_count + length ks) % 2 ^ 64)
        × (stats.msg_count % 2 ^ 64 ≡ (c.stats.msg_count + sum_of message_count ks) % 2 ^ 64)
  connections_counted c ks schedule enough =
      let (counted, same) = run_calls_counts c (map (call_of c) ks) (accept_all c ks) schedule in
      let (messages, clients) = accept_all_counts c ks in
      (
        omega (arith, same, clients),
        omega (arith, counted, messages, handled_by_all-call_of c c (turns_of schedule) ks enough),
      )
