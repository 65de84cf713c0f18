-- ===== src/Udp/Packet.antt =====
-- One datagram: what a fragment, a refused datagram and a datagram in the documented layout do.
use grpc_server_rust.Prelude.{
  ℕ, zero, suc, ◌%◌, ◌≤◌, ◌<◌, ◌≡◌, refl, sym, ap, ◌∙◌, arith, Bool, false, not, ◌==◌, leb, ltb,
  inl, inr, Bool-cases, List, [], ◌∷◌, ◌++◌, Bytes, Str, str, length, drop, if◌then◌else◌,
}
use grpc_server_rust.Error.{err, AppError, udp_parse, display}
use grpc_server_rust.Log.{info, warn, LogLine}
use grpc_server_rust.Wire.{Json, DialoutCodec}
use grpc_server_rust.UdpHeader.{at, be16, parse_udp_header, extract_payload, below_minimum_header}
use grpc_server_rust.UdpHeader.Fields.{
  standard_length, standard_header, IsAccepted, parse_udp_header-standard_header,
}
use grpc_server_rust.UdpHeader.Layout.{documented_layout_refused}
use grpc_server_rust.Udp.Printing.{UdpConfig, head_line, output}
use grpc_server_rust.Udp.{on_parsed, process_udp_packet}

drop-all : (n : ℕ) (bytes : Bytes) → length bytes ≤ n → drop n bytes ≡ []
drop-all zero [] h = refl
drop-all zero (b ∷ bytes) h = absurd (omega arith)
drop-all (suc n) [] h = refl
drop-all (suc n) (b ∷ bytes) h = drop-all n bytes (omega arith)

extract_payload-drop : (bytes : Bytes) (n : ℕ) → extract_payload bytes n ≡ drop n bytes
unfolding extract_payload
extract_payload-drop bytes n = elim (Bool-cases (ltb n (length bytes))) [
  | inl inside ↦ rw inside
  | inr past ↦ rw past (sym (drop-all n bytes (ground arith)))
]

-- A datagram that carries the fragment `p`: its header length is above 12, and the low bit of the
-- segment word says whether it is the last.
pub record IsFragment (bytes p : Bytes) (last : Bool) : Type 0 where
  pub accepted : IsAccepted bytes (standard_length bytes)
  pub has_option : 12 < standard_length bytes
  pub last_bit : not (be16 (at bytes 14) (at bytes 15) % 2 == 0) ≡ last
  pub payload : p ≡ drop (standard_length bytes) bytes

-- The line and the text of a datagram that no header can be read from.
abbrev pub defaulting : LogLine
defaulting = (info, str "Defaulting to first 12 bytes as UDP header")

module _ (json : Json) (codec : DialoutCodec) {F : Type 0} (show : F → Str) (ip_type : Str)
    (count : ℕ) (addr : Str) (config : UdpConfig) (chunk_data : Bytes) where
  abbrev process : Bytes → List LogLine × Bytes
  process bytes = process_udp_packet json codec show bytes ip_type count addr config chunk_data

  abbrev print : Bytes → List LogLine
  print payload = output json codec payload ip_type count addr config

  -- A fragment joins the buffer; the last one empties it into the output.
  pub process-fragment :
      (bytes p : Bytes) (last : Bool)
      → IsFragment bytes p last
      → process bytes ≡ (
          if last
          then (head_line bytes (standard_header bytes) ∷ print (chunk_data ++ p), [])
          else (head_line bytes (standard_header bytes) ∷ [], chunk_data ++ p))
  unfolding process_udp_packet
  process-fragment bytes p last f =
      ap (λ r. on_parsed json codec show r bytes ip_type count addr config chunk_data)
        (parse_udp_header-standard_header {F = F} bytes f.accepted)
      ∙ ground (arith, extract_payload-drop bytes (standard_length bytes), f.payload, f.last_bit)

  -- A datagram whose header the parser refuses leaves the buffer as it is. With at most 12 bytes it
  -- makes one warning; with more, everything behind the first 12 bytes is put out at once.
  pub process-refused :
      (bytes : Bytes) (e : AppError F)
      → parse_udp_header bytes ≡ err e
      → process bytes ≡ (
        let warning : LogLine = (warn, str "Failed to parse UDP header: " ++ display show e) in
            if leb (length bytes) 12
            then warning ∷ []
            else warning ∷ defaulting ∷ print (drop 12 bytes),
        chunk_data,
      )
  unfolding process_udp_packet
  process-refused bytes e h =
      ap (λ r. on_parsed json codec show r bytes ip_type count addr config chunk_data) h
      ∙ ground arith

  -- A datagram of 16 bytes or more in the documented layout, with ET 0, header length 16 and any
  -- option, last or not, is not taken for a fragment: its option bytes and its payload are put out
  -- together at once, and the buffer of earlier fragments stays as it is.
  pub documented_fragment_not_assembled :
      (bytes : Bytes)
      → 16 ≤ length bytes
      → at bytes 0 % 16 ≡ 0
      → at bytes 1 ≡ 16
      → process bytes ≡ (
        (
          warn,
          str "Failed to parse UDP header: " ++ display show (udp_parse (below_minimum_header 1)),
        )
            ∷ defaulting
            ∷ print (drop 12 bytes),
        chunk_data,
      )
  documented_fragment_not_assembled bytes long et_zero sixteen =
      let refused : parse_udp_header {F = F} bytes ≡ err (udp_parse (below_minimum_header 1)) =
        documented_layout_refused bytes (omega arith) et_zero (omega arith)
        ∙ ap (λ k. err (udp_parse (below_minimum_header k))) (omega arith) in
      let more : leb (length bytes) 12 ≡ false = ground arith in
      process-refused bytes (udp_parse (below_minimum_header 1)) refused ∙ rw more
