-- ===== src/Error.antt =====
-- src-tauri/src/error.rs. A value of an error type of another library (io, serde_json, tonic, net)
-- is a value of the parameter `F`, and `show` is its `Display`.
use grpc_server_rust.Prelude.{ℕ, Bool, true, false, ◌++◌, Str, str, fmt_nat}

pub data AppError (F : Type 0) : Type 0 where
  io json grpc_status grpc_transport addr_parse : F → AppError F
  proto_parse udp_parse proto_reflect tls config chunk protoc unsupported : Str → AppError F
  channel_closed : AppError F
  message_too_large : ℕ → ℕ → AppError F

-- The `#[error("…")]` attributes.
unfoldable pub display : {F : Type 0} → (F → Str) → AppError F → Str
display show (io e) = str "I/O error: " ++ show e
display show (json e) = str "JSON error: " ++ show e
display show (grpc_status e) = str "gRPC status: " ++ show e
display show (grpc_transport e) = str "gRPC transport error: " ++ show e
display show (addr_parse e) = str "Address parse error: " ++ show e
display show (proto_parse s) = str "Protobuf parse error: " ++ s
display show (udp_parse s) = str "UDP header parse error: " ++ s
display show (proto_reflect s) = str "Proto reflection / dynamic decode error: " ++ s
display show (tls s) = str "TLS configuration error: " ++ s
display show (config s) = str "Configuration error: " ++ s
display show (chunk s) = str "Chunk assembly error: " ++ s
display show (protoc s) = str "Protoc invocation failed: " ++ s
display show (unsupported s) = str "Unsupported operation: " ++ s
display show channel_closed = str "Channel closed unexpectedly"
display show (message_too_large size max) =
    str "Message too large: "
    ++ (fmt_nat size ++ (str " bytes (max " ++ (fmt_nat max ++ str " bytes)")))

-- `std::result::Result<A, E>`
pub data Outcome {ℓ κ} (E : Type ℓ) (A : Type κ) : Type (ℓ ⊔ κ) where
  ok : A → Outcome E A
  err : E → Outcome E A

abbrev pub Result : Type 0 → Type 0 → Type 0
Result F A = Outcome (AppError F) A

infixl 5 ◌>>=◌ ◌>>◌
abbrev pub ◌>>=◌ {ℓ κ μ} :
    {E : Type ℓ} {A : Type κ} {B : Type μ} → Outcome E A → (A → Outcome E B) → Outcome E B
ok a >>= f = f a
err e >>= f = err e

abbrev pub ◌>>◌ {ℓ μ} : {E : Type ℓ} {B : Type μ} → Outcome E (Unit {0}) → Outcome E B → Outcome E B
m >> k = m >>= λ _. k

-- `if test { return Err(e); }`
abbrev pub fail_if {ℓ} : {E : Type ℓ} → Bool → E → Outcome E (Unit {0})
fail_if true e = err e
fail_if false e = ok tt
