-- ===== src/Tests/Packets.antt =====
-- The theorems on net ids and on the packets of the system service, at concrete inputs.
use ads_async.Prelude.{ℕ, ◌≡◌, refl, some, inl, All, [], ◌∷◌, ◌++◌, arith, length}
use ads_async.Prelude.Result.{ok, err, value_error, bad_response}
use ads_async.Bytes.{Bytes}
use ads_async.Structs.Address.{AmsNetId}
use ads_async.Structs.NetId.{from_string, repr}
use ads_async.Structs.NetId.RoundTrip.{IsNetId, from_string-repr}
use ads_async.Structs.Text.{Text, IsAscii, until_null}
use ads_async.Service.Defs.{
  deserialize_response, deserialize_header, to_command, magic, get_info_command, info_result,
}
use ads_async.Service.Info.{info_reply}
use ads_async.Service.Search.{
  Arrival, timed_out, arrives, Yielded, failed, search, first_of, get_plc_info,
}
use ads_async.Service.Found.{IsAnswerTo, get_plc_info_found}

abbrev loopback : AmsNetId
loopback = record { octet1 = 127; octet2 = 0; octet3 = 0; octet4 = 1; octet5 = 1; octet6 = 10 }

abbrev loopback_text : Text
loopback_text =
    b'1' ∷ b'2' ∷ b'7' ∷ b'.' ∷ b'0' ∷ b'.' ∷ b'0' ∷ b'.' ∷ b'1' ∷ b'.' ∷ b'1' ∷ b'.' ∷ b'1' ∷ b'0'
    ∷ []

printed : repr loopback ≡ loopback_text
unfolding repr
printed = refl

-- Spaces, signs, underscores and numbers above 255 are taken as `int` and `c_uint8` take them.
odd_text :
    from_string (
      b' ' ∷ b'1' ∷ b'.' ∷ b'-' ∷ b'2' ∷ b'.' ∷ b'+' ∷ b'3' ∷ b'.' ∷ b'2' ∷ b'5' ∷ b'7' ∷ b'.'
      ∷ b'1' ∷ b'_' ∷ b'0' ∷ b'.' ∷ b'0' ∷ b'6' ∷ [])
    ≡ ok (record { octet1 = 1; octet2 = 254; octet3 = 3; octet4 = 1; octet5 = 10; octet6 = 6 })
unfolding from_string
odd_text = refl

five_parts :
    from_string (b'1' ∷ b'.' ∷ b'2' ∷ b'.' ∷ b'3' ∷ b'.' ∷ b'4' ∷ b'.' ∷ b'5' ∷ [])
    ≡ err value_error
unfolding from_string
five_parts = refl

from_string-repr_example : from_string (repr loopback) ≡ ok loopback
from_string-repr_example = from_string-repr loopback (omega arith)

abbrev plc_name : Text
plc_name = b'P' ∷ b'L' ∷ b'C' ∷ []

name-IsAscii : IsAscii plc_name
name-IsAscii = omega arith

name_short : length (until_null plc_name) ≡ 3
unfolding until_null
name_short = refl

-- An empty packet, and then the answer of the PLC.
abbrev empty_packet : Arrival ℕ
empty_packet = arrives [] 9

empty_is_bad : deserialize_response {A = ℕ} [] 9 ≡ err bad_response
unfolding deserialize_response deserialize_header
empty_is_bad = refl

loopback-IsNetId : IsNetId loopback
loopback-IsNetId = omega arith

get_plc_info_found_example :
    (packet : Bytes) × (more : Yielded ℕ) × (get_plc_info (
        (empty_packet ∷ [])
        ++ (arrives (info_reply 0 loopback 801 7 (1 ∷ 2 ∷ 3 ∷ 4 ∷ []) plc_name (9 ∷ [])) 5 ∷ []))
      ≡ ok (packet, more))
    × (first_of more
        ≡ ok (
            some (record {
              command_id = get_info_command;
              source_net_id = repr loopback;
              source_ams_port = 801;
              source_addr = 5;
              unknown_response_id = 7;
              result = info_result (until_null plc_name);
            })))
    × All (IsAnswerTo get_info_command) more.yields
get_plc_info_found_example =
    get_plc_info_found (empty_packet ∷ []) [] 5 0 loopback 801 7 (1 ∷ 2 ∷ 3 ∷ 4 ∷ []) plc_name
      (9 ∷ []) (inl empty_is_bad, tt) loopback-IsNetId (omega arith) (omega arith) refl name-IsAscii
      (omega (arith, name_short))

-- A packet with the header of a response and the number of no command ends the search.
abbrev stray : Bytes
stray = magic ++ (2 ∷ 0 ∷ 0 ∷ 0x80 ∷ 127 ∷ 0 ∷ 0 ∷ 1 ∷ 1 ∷ 10 ∷ 0x10 ∷ 0x27 ∷ 0 ∷ 0 ∷ [])

stray_ends :
    search {A = ℕ} get_info_command (arrives stray 9 ∷ timed_out ∷ [])
    ≡ record { yields = []; end = failed value_error }
unfolding search deserialize_response deserialize_header to_command
stray_ends = refl
