-- ===== src/Tests/Protocol.antt =====
-- The theorems on structures and frames, at concrete inputs.
use mathlib.Core.List.{append-nil}
use ads_async.Prelude.{
  ◌≡◌, ◌≢◌, ap, ◌∙◌, take, take-append-drop, refl, some, [], ◌∷◌, ◌++◌, length, drop, arith,
}
use ads_async.Bytes.{Bytes, to_le, pack}
use ads_async.Constants
use ads_async.Constants.{to_command_id, type_value}
use ads_async.Structs.Item.{Item, serialize, item_command}
use ads_async.Structs.RoundTrip.{RequestFits}
use ads_async.Structs.Base.{pack_s}
use ads_async.Wire.{received_data, from_wire, no_fuel, finished}
use ads_async.Wire.Progress.{from_wire_ends}
use ads_async.Wire.Requests.{Request, RequestIsValid, frame_of}
use ads_async.Wire.Stream.{feed, stream_of, parsed, feed-stream_of}
use ads_async.Wire.Discard.{short_packet, short_packet_stays}
use ads_async.Tests.Data.{client_addr, server_addr}

abbrev write_three : Item
write_three = Item.write_item (record {
  index_group = 61445;
  index_offset = 101;
  write_length = 3;
  payload = some (7 ∷ 8 ∷ 9 ∷ []);
})

write_three_fits : RequestFits write_three
write_three_fits = ((omega arith, (omega arith, (omega arith, tt))), refl)

abbrev request : Request
request = record {
  item = write_three;
  command = Constants.write;
  target = server_addr;
  source = client_addr;
  invoke_id = 101;
}

request-IsValid : RequestIsValid request
unfolding item_command serialize pack to_le pack_s
request-IsValid = record {
  command_of_item = refl;
  item_fits = write_three_fits;
  target_fits = omega arith;
  source_fits = omega arith;
  invoke_id_fits = omega arith;
  length_fits = omega arith;
}

abbrev two_requests : Bytes
two_requests = stream_of (request ∷ request ∷ [])

feed-stream_of_example :
    feed [] (take 5 two_requests ∷ drop 5 two_requests ∷ [])
    ≡ (parsed request ∷ parsed request ∷ [], [])
feed-stream_of_example =
    feed-stream_of (request ∷ request ∷ []) (take 5 two_requests ∷ drop 5 two_requests ∷ [])
      (request-IsValid, (request-IsValid, tt))
      (ap (λ b. take 5 two_requests ++ b) (append-nil (drop 5 two_requests))
        ∙ take-append-drop 5 two_requests)

from_wire_ends_example : (from_wire (frame_of request)).end ≢ no_fuel
from_wire_ends_example = from_wire_ends (frame_of request)

short_packet_stays_example :
    (received_data [] (short_packet (1 ∷ 2 ∷ []) ++ frame_of request) ≡ record {
      items = parsed request ∷ [];
      recv_buffer =
          drop (length (frame_of request)) (short_packet (1 ∷ 2 ∷ []) ++ frame_of request);
      end = finished;
    })
    × (length (received_data [] (short_packet (1 ∷ 2 ∷ []) ++ frame_of request)).recv_buffer ≡ 8)
short_packet_stays_example = short_packet_stays (1 ∷ 2 ∷ []) request (omega arith) request-IsValid
