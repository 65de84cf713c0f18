-- ===== src/Gpb/Assembly.antt =====
-- From the chunks on the stream to the lines in the log: `assemble_chunk` in the loop.
use grpc_server_rust.Prelude.{
  ℕ, zero, suc, ◌^◌, ◌≤◌, ◌<◌, ◌≡◌, refl, sym, ap, ap₂, ◌∙◌, arith, true, false, none, some, List,
  [], ◌∷◌, ◌++◌, append_assoc, append-nil, map, Bytes, Str, length, All, length-append,
}
use grpc_server_rust.Prelude.Int.{pos, as_i32, ltb_ℤ, is_zero}
use grpc_server_rust.Error.{Outcome}
use grpc_server_rust.Log.{LogLine}
use grpc_server_rust.Wire.{Json, DialoutV3Args, TelemetryCodec}
use grpc_server_rust.Stream.{message}
use grpc_server_rust.Models.Stats.{incr}
use grpc_server_rust.Registry.{Registry}
use grpc_server_rust.Dynamic.{JsonMaker, Reflect}
use grpc_server_rust.Gpb.Printing.{V3Config}
use grpc_server_rust.Gpb.{
  Call, chunk_line, assemble_chunk, data_lines, on_message, on_assembled, dialout_loop,
}

as_i32_lem : (n : ℕ) → n < 2 ^ 31 → as_i32 n ≡ pos n
as_i32_lem n h = ground arith

-- The bytes of a run of chunks, and the counter after it.
abbrev pub payloads : List DialoutV3Args → Bytes
payloads [] = []
payloads (r ∷ rs) = r.payload ++ payloads rs

abbrev pub count_on : ℕ → ℕ → ℕ
count_on zero c = c
count_on (suc n) c = count_on n (incr c)

-- The lines on chunks that complete nothing.
abbrev pub progress : Bytes → List DialoutV3Args → List LogLine
progress buffer [] = []
progress buffer (r ∷ rs) = chunk_line r (buffer ++ r.payload) ∷ progress (buffer ++ r.payload) rs

-- The same announced size on each chunk.
abbrev pub HasSize : ℕ → DialoutV3Args → Type 0
HasSize size r = r.total_size ≡ pos size

is_zero_size : (size : ℕ) → 0 < size → is_zero (pos size) ≡ false
is_zero_size size h = ground arith

below_size : (n size : ℕ) → n < size → n < 2 ^ 31 → ltb_ℤ (as_i32 n) (pos size) ≡ true
below_size n size h bound = rw (as_i32_lem n bound) (ground arith)

not_below_size : (n size : ℕ) → size ≤ n → n < 2 ^ 31 → ltb_ℤ (as_i32 n) (pos size) ≡ false
not_below_size n size h bound = rw (as_i32_lem n bound) (ground arith)

assemble_part :
    (size : ℕ) (buffer : Bytes) (r : DialoutV3Args)
    → HasSize size r
    → size < 2 ^ 31
    → length (buffer ++ r.payload) < size
    → assemble_chunk buffer r ≡ (none, chunk_line r (buffer ++ r.payload) ∷ [])
unfolding assemble_chunk
assemble_part size buffer r same bound short =
    rw
      (
        same,
        is_zero_size size (omega arith),
        below_size (length (buffer ++ r.payload)) size short (omega arith),
      )
      refl

assemble_unchunked :
    (buffer : Bytes) (r : DialoutV3Args)
    → HasSize 0 r
    → assemble_chunk buffer r ≡ (some r.payload, [])
unfolding assemble_chunk
assemble_unchunked buffer r same = rw same refl

assemble_last :
    (size : ℕ) (buffer : Bytes) (r : DialoutV3Args)
    → HasSize size r
    → 0 < size
    → length (buffer ++ r.payload) < 2 ^ 31
    → size ≤ length (buffer ++ r.payload)
    → assemble_chunk buffer r ≡ (some (buffer ++ r.payload), [])
unfolding assemble_chunk
assemble_last size buffer r same positive bound enough =
    rw
      (
        same,
        is_zero_size size positive,
        not_below_size (length (buffer ++ r.payload)) size enough bound,
      )
      refl

module _ (json : Json) {D K : Type 0} (make : JsonMaker json K) (reflect : Reflect D K)
    (codec : TelemetryCodec) (config : V3Config) (peer : Str) (registry : Outcome Str (Registry D))
    {S : Type 0} (show : S → Str) where
  abbrev pub feed : Call → List DialoutV3Args → Call
  feed s rs = (dialout_loop json make reflect codec config peer registry show s (map message rs)).0

  abbrev handle : Call → DialoutV3Args → Call
  handle s r = on_message json make reflect codec config peer registry s r

  abbrev pub lines_of : DialoutV3Args → Bytes → ℕ → List LogLine
  lines_of r bytes count = data_lines json make reflect codec config peer registry r bytes count

  module _ (reading : config.performance_mode ≡ false) where
    handle_part :
        (s : Call) (r : DialoutV3Args) (lines : List LogLine)
        → assemble_chunk s.chunk_data r ≡ (none, lines)
        → ((handle s r).chunk_data ≡ s.chunk_data ++ r.payload)
          × ((handle s r).log ≡ s.log ++ lines)
          × ((handle s r).count ≡ incr s.count)
    unfolding on_message on_assembled
    handle_part s r lines h = rw (reading, h) (refl, refl, refl)

    handle_complete :
        (s : Call) (r : DialoutV3Args) (bytes : Bytes)
        → assemble_chunk s.chunk_data r ≡ (some bytes, [])
        → ((handle s r).chunk_data ≡ [])
          × ((handle s r).log ≡ s.log ++ lines_of r bytes (incr s.count))
          × ((handle s r).count ≡ incr s.count)
    unfolding on_message on_assembled
    handle_complete s r bytes h = rw (reading, h) (refl, refl, refl)

    -- Chunks that do not reach the size that they announce are held, in order, until a message
    -- completes some data.
    parts_then :
        (size : ℕ) (rs : List DialoutV3Args) (s : Call) (r : DialoutV3Args) (bytes : Bytes)
        → All (HasSize size) rs
        → size < 2 ^ 31
        → length (s.chunk_data ++ payloads rs) < size
        → assemble_chunk (s.chunk_data ++ payloads rs) r ≡ (some bytes, [])
        → ((feed s (rs ++ r ∷ [])).chunk_data ≡ [])
          × ((feed s (rs ++ r ∷ [])).log
              ≡ s.log
                ++ (progress s.chunk_data rs
                    ++ lines_of r bytes (count_on (suc (length rs)) s.count)))
    unfolding dialout_loop
    parts_then size [] s r bytes h bound short done =
        let (a, b, c) =
          handle_complete s r bytes
            (ap (λ x. assemble_chunk x r) (sym (append-nil s.chunk_data)) ∙ done) in
        (a, b)
    parts_then size (p ∷ rs) s r bytes (same, hs) bound short done =
        let line = chunk_line p (s.chunk_data ++ p.payload) in
        let (a, b, c) = handle_part s p (line ∷ []) (
          assemble_part size s.chunk_data p same bound (
            omega (
              arith,
              short,
              length-append s.chunk_data p.payload,
              length-append s.chunk_data (p.payload ++ payloads rs),
              length-append p.payload (payloads rs),
            ))) in
        let held : (handle s p).chunk_data ++ payloads rs ≡ s.chunk_data ++ payloads (p ∷ rs) =
          ap (λ x. x ++ payloads rs) a ∙ append_assoc s.chunk_data p.payload (payloads rs) in
        let ih =
          parts_then size rs (handle s p) r bytes hs bound (rw held short)
            (ap (λ x. assemble_chunk x r) held ∙ done) in
        let after : Bytes → ℕ → List LogLine =
          λ x n. progress x rs ++ lines_of r bytes (count_on (suc (length rs)) n) in
        (
          ih.0,
          ih.1
              ∙ ap₂ (λ l ls. l ++ ls) b (ap₂ after a c)
              ∙ append_assoc s.log (line ∷ []) (after (s.chunk_data ++ p.payload) (incr s.count)),
        )

    -- A call that is not in performance mode, holds some bytes and receives chunks that each announce
    -- the same size, which is reached by the last chunk only, with less than 2 ^ 31 bytes in all, the
    -- held ones included: it logs the progress of the chunks before, and then what it logs of all the
    -- bytes joined in order, under the count of the last; and nothing is held.
    pub chunks_joined :
        (size : ℕ) (s : Call) (rs : List DialoutV3Args) (r : DialoutV3Args)
        → All (HasSize size) rs
        → HasSize size r
        → length (s.chunk_data ++ payloads rs) < size
        → size ≤ length ((s.chunk_data ++ payloads rs) ++ r.payload)
        → length ((s.chunk_data ++ payloads rs) ++ r.payload) < 2 ^ 31
        → ((feed s (rs ++ r ∷ [])).chunk_data ≡ [])
          × ((feed s (rs ++ r ∷ [])).log
              ≡ s.log
                ++ (progress s.chunk_data rs
                    ++ lines_of r
                        ((s.chunk_data ++ payloads rs) ++ r.payload)
                        (count_on (suc (length rs)) s.count)))
    chunks_joined size s rs r hs h short enough bound =
        parts_then size rs s r _ hs (omega arith) short
          (assemble_last size _ r h (omega arith) bound enough)

    -- A call that is not in performance mode, and receives chunks that do not reach the size that
    -- they announce, below 2 ^ 31, and then a message with size 0: the bytes of the chunks are
    -- dropped, and after their progress it logs what it logs of that message alone.
    pub unchunked_drops_held :
        (size : ℕ) (s : Call) (rs : List DialoutV3Args) (r : DialoutV3Args)
        → All (HasSize size) rs
        → HasSize 0 r
        → size < 2 ^ 31
        → length (s.chunk_data ++ payloads rs) < size
        → ((feed s (rs ++ r ∷ [])).chunk_data ≡ [])
          × ((feed s (rs ++ r ∷ [])).log
              ≡ s.log
                ++ (progress s.chunk_data rs
                    ++ lines_of r r.payload (count_on (suc (length rs)) s.count)))
    unchunked_drops_held size s rs r hs h bound short =
        parts_then size rs s r _ hs bound short (assemble_unchunked _ r h)
