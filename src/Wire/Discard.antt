-- ===== src/Wire/Discard.antt =====
-- What `from_wire` and `received_data` of ads_async/protocol.py do with frames that they cannot
-- read: packets that are too short, requests whose class fails to deserialize, payloads that are
-- longer than their frame.
use mathlib.Core.List.{append-nil, append_assoc}
use ads_async.Prelude.{
  drop_known, ℕ, ◌+◌, ◌<◌, ◌^◌, ◌≡◌, refl, sym, ap, ◌∙◌, some, [], ◌∷◌, ◌++◌, arith, length, drop,
  length-append, length-drop, le→ltb, lt→ltb, Bool-cases, inl, inr, true, leb,
}
use ads_async.Prelude.Result.{Exception, ok, err, attribute_error, value_error}
use ads_async.Bytes.{Bytes, Fits, pack, size_of}
use ads_async.Constants
use ads_async.Structs.Base.{from_buffer, from_buffer-pack, unpack_s, unpack_s-append, drop-pack}
use ads_async.Structs.Request.{write_layout, write_of, write_control_layout}
use ads_async.Structs.Header
use ads_async.Structs.Header.{
  AoEHeader, AoEFits, tcp_header, serialize_tcp, tcp_from_buffer-serialize_tcp, command_id,
  is_request,
}
use ads_async.Structs.Item.{write_item, write_control_class, deserialize, get_struct_by_command}
use ads_async.Wire.Defs.{
  skip, emit, round, finished, yield_first, from_wire, received_data, frame_bytes,
}
use ads_async.Wire.Progress.{from_wire-skip, from_wire-stop}
use ads_async.Wire.Frames.{length-serialize_tcp, round-frame_bytes, round_few}
use ads_async.Wire.Requests.{Request, RequestIsValid, frame_of}
use ads_async.Wire.Stream.{parsed, from_wire-frame_of}

-- A packet whose TCP header states a length below that of an AoE header.
abbrev pub short_packet : Bytes → Bytes
short_packet body = serialize_tcp (tcp_header (length body)) ++ body

length-short_packet : (body : Bytes) → length (short_packet body) ≡ 6 + length body
length-short_packet body = omega (
  arith,
  length-append (serialize_tcp (tcp_header (length body))) body,
  length-serialize_tcp (length body),
)

round-short_packet :
    (body rest : Bytes) → length body < 32 → round (short_packet body ++ rest) ≡ skip rest
unfolding round
round-short_packet body rest h =
    let n = length body in
    let buf = short_packet body ++ rest in
    let dropped : drop (n + 6) buf ≡ rest =
      drop_known (n + 6) (short_packet body) rest (omega (arith, length-short_packet body)) in
    let read =
      ap (λ b. Header.tcp_from_buffer b) (append_assoc (serialize_tcp (tcp_header n)) body rest)
      ∙ tcp_from_buffer-serialize_tcp (tcp_header n) (body ++ rest) (omega arith) in
    rw (
      le→ltb (length buf) 6
          (omega (arith, length-append (short_packet body) rest, length-short_packet body)),
      read,
      lt→ltb n 32 h,
      dropped,
    )

-- A short packet is passed over, but its bytes stay counted: after a short packet and a request,
-- the request is read, and as many bytes as the packet had are left in the buffer, namely the end
-- of the request that has just been read.
pub short_packet_stays :
    (body : Bytes) (r : Request)
    → length body < 32
    → RequestIsValid r
    → let bytes = short_packet body ++ frame_of r in
      (received_data [] bytes ≡ record {
        items = parsed r ∷ [];
        recv_buffer = drop (length (frame_of r)) bytes;
        end = finished;
      })
      × (length (received_data [] bytes).recv_buffer ≡ 6 + length body)
unfolding received_data
short_packet_stays body r h v =
    let frame = frame_of r in
    let bytes = short_packet body ++ frame in
    let same : from_wire bytes
        ≡ yield_first (length frame, parsed r) (record { yields = []; end = finished }) =
      from_wire-skip bytes frame (round-short_packet body frame h) ∙ from_wire-frame_of r v in
    (
      rw same,
      rw same (
          omega (
            arith,
            length-drop (length frame) bytes,
            length-append (short_packet body) frame,
            length-short_packet body,
          )),
    )

no_write_control : (view : Bytes) → (e : Exception) × (deserialize write_control_class view ≡ err e)
unfolding deserialize from_buffer
no_write_control view = elim (Bool-cases (leb (size_of write_control_layout) (length view))) [
  | inl enough ↦ (attribute_error, rw enough)
  | inr short ↦ (value_error, rw short)
]

-- A WRITE_CONTROL request is never delivered, whatever it holds: nothing is yielded, and its bytes
-- stay at the front of the buffer.
pub write_control_stays :
    (h : AoEHeader) (payload : Bytes)
    → AoEFits h
    → h.length ≡ length payload
    → 32 + length payload < 2 ^ 32
    → command_id h ≡ some Constants.write_control
    → is_request h ≡ true
    → received_data [] (frame_bytes h payload)
      ≡ record { items = []; recv_buffer = frame_bytes h payload; end = finished }
unfolding received_data get_struct_by_command
write_control_stays h payload fits len small cmd req =
    let (e, fails) = no_write_control (payload ++ []) in
    let r : round (frame_bytes h payload) ≡ skip [] =
      ap round (sym (append-nil (frame_bytes h payload)))
      ∙ round-frame_bytes h payload [] fits len small
      ∙ rw (cmd, req, fails) refl in
    rw (from_wire-skip (frame_bytes h payload) [] r, from_wire-stop [] (round_few [] (omega arith)))

-- A WRITE request that states more data than its frame holds: the payload goes on into the bytes
-- that follow the frame, and they are read a second time as the next frame.
pub write_overruns :
    (h : AoEHeader) (g o : ℕ) (bytes extra more : Bytes)
    → let n = length bytes + length extra in
      let payload = pack write_layout (g ∷ o ∷ n ∷ []) ++ bytes in
      AoEFits h
      → h.length ≡ length payload
      → 32 + length payload < 2 ^ 32
      → Fits write_layout (g ∷ o ∷ n ∷ [])
      → command_id h ≡ some Constants.write
      → is_request h ≡ true
      → round (frame_bytes h payload ++ (extra ++ more))
        ≡ emit
            (38 + length payload)
            (some (
              h,
              write_item (record {
                index_group = g;
                index_offset = o;
                write_length = n;
                payload = some (bytes ++ extra);
              }),
            ))
            (extra ++ more)
unfolding get_struct_by_command deserialize size_of
write_overruns h g o bytes extra more fits len small wfits cmd req =
    let n = length bytes + length extra in
    let vs = g ∷ o ∷ n ∷ [] in
    let payload = pack write_layout vs ++ bytes in
    let shape : payload ++ (extra ++ more) ≡ pack write_layout vs ++ ((bytes ++ extra) ++ more) =
      append_assoc (pack write_layout vs) bytes (extra ++ more)
      ∙ ap (λ t. pack write_layout vs ++ t) (sym (append_assoc bytes extra more)) in
    let whole : unpack_s n ((bytes ++ extra) ++ more) ≡ ok (bytes ++ extra) =
      ap (λ k. unpack_s k ((bytes ++ extra) ++ more)) (sym (length-append bytes extra))
      ∙ unpack_s-append (bytes ++ extra) more in
    rw (
      round-frame_bytes h payload (extra ++ more) fits len small,
      cmd,
      req,
      shape,
      from_buffer-pack write_layout write_of vs ((bytes ++ extra) ++ more) wfits,
      drop-pack write_layout vs ((bytes ++ extra) ++ more),
      whole,
    )
