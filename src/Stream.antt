-- ===== src/Stream.antt =====
-- What `stream.message().await` gives of a client's stream: messages, or the status of a fault. The
-- end of the list is the end of the stream. `S` stands for `tonic::Status`.
use grpc_server_rust.Prelude.{Option, none, some, List, [], ◌∷◌}

pub data Item (S M : Type 0) : Type 0 where
  message : M → Item S M
  fault : S → Item S M

module _ {S M : Type 0} where
  -- The messages before the first fault, and that fault.
  abbrev pub messages : List (Item S M) → List M
  messages [] = []
  messages (message m ∷ items) = m ∷ messages items
  messages (fault e ∷ items) = []

  abbrev pub first_fault : List (Item S M) → Option S
  first_fault [] = none
  first_fault (message m ∷ items) = first_fault items
  first_fault (fault e ∷ items) = some e
