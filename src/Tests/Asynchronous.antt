-- ===== src/Tests/Asynchronous.antt =====
-- The theorems on the asyncio client, at concrete inputs.
use ads_async.Prelude.{
  ℕ, suc, ◌≡◌, refl, some, none, true, List, [], ◌∷◌, ◌==◌, lookup, erase, insert, replicate, All,
  In, arith,
}
use ads_async.Prelude.Result.{Result, ok, err, not_implemented, request_failed}
use ads_async.Bytes.{Bytes}
use ads_async.Structs.Item.{Item}
use ads_async.Structs.Request.{AdsReadRequest}
use ads_async.Structs.Response.{AoENotificationHandleResponse}
use ads_async.Structs.SymbolEntry.{AdsSymbolEntry, deserialize_entry}
use ads_async.Structs.Base.{from_buffer, unpack_s}
use ads_async.Structs.Text.{Text, ascii, ascii_bytes, string_to_byte_string, byte_string_to_string}
use ads_async.Client.{new_client}
use ads_async.Asyncio.Callbacks.{Update, call, subscribe, new_notification, add_callback, process}
use ads_async.Asyncio.Runs.{
  Happening, added, removed_token, answered, updated, happens, happens-removed,
}
use ads_async.Asyncio.Kept.{add_callback-called, Spares}
use ads_async.Asyncio.Circuit.{AsyncioCircuit, check_result, result_attribute}
use ads_async.Asyncio.Events.{starts, receives}
use ads_async.Asyncio.Waiting.{Moment, takes_place, resumes}
use ads_async.Asyncio.Symbols.{new_symbol, info_by_name, read, release}
use ads_async.Asyncio.Released.{read_after_release}
use ads_async.Bytes.{unpack, size_of, from_le}
use ads_async.Tests.Data.{header}

abbrev pub server_net_id : Text
server_net_id = b'5' ∷ b'.' ∷ b'6' ∷ b'.' ∷ b'7' ∷ b'.' ∷ b'8' ∷ b'.' ∷ b'1' ∷ b'.' ∷ b'1' ∷ []

abbrev pub client_net_id : Text
client_net_id = b'1' ∷ b'.' ∷ b'2' ∷ b'.' ∷ b'3' ∷ b'.' ∷ b'4' ∷ b'.' ∷ b'1' ∷ b'.' ∷ b'1' ∷ []

abbrev update : Update
update = record {
  header = header 8 50;
  timestamp = 1000;
  sample = record { notification_handle = 3; sample_size = 1; payload = 5 ∷ [] };
}

abbrev handle_three : AoENotificationHandleResponse
handle_three = record { result = 0; handle = 3 }

-- Functions are numbers. The function 1 is added and removed before 2 is added.
abbrev before : List (Happening ℕ)
before = added 1 ∷ answered handle_three ∷ updated (λ f. true) update ∷ removed_token 0 ∷ []

abbrev after : List (Happening ℕ)
after = added 3 ∷ updated (λ f. f == 2) update ∷ removed_token 2 ∷ []

token_one : (add_callback 2 (happens before new_notification)).0 ≡ 1
unfolding add_callback happens new_notification erase insert
token_one = refl

spared : All (Spares (add_callback 2 (happens before new_notification)).0 2) after
spared = (tt, (refl, ((λ e. omega (arith, e, token_one)), tt)))

add_callback-called_example :
    let n = happens before new_notification in
    let (token, n') = add_callback 2 n in
    (lookup token n.callbacks ≡ none)
    × In (call 2 update) (process (λ f. f == 2) update (happens after n')).submitted
add_callback-called_example = add_callback-called before after 2 (λ f. f == 2) update spared refl

happens-removed_example : (happens before new_notification).removed ≡ []
happens-removed_example = happens-removed before

-- The second subscription is asked for although the first still stands.
jobs :
    (add_callback 2 (happens before new_notification)).1.submitted
    ≡ subscribe ∷ call 1 update ∷ subscribe ∷ []
unfolding add_callback happens new_notification erase insert
jobs = refl

abbrev pub client : AsyncioCircuit ℕ
client = record {
  net_id = server_net_id;
  default_port = 851;
  our_net_id = client_net_id;
  our_port = 851;
  circuit = new_client;
  response_handlers = [];
  requests = [];
  notifications = [];
  symbols = [];
}

abbrev read_four : AdsReadRequest
read_four = record { index_group = 61445; index_offset = 101; length = 4 }

abbrev refusal : Item
refusal = Item.response_item (record { result = 0x706 })

-- Another response and another request come first, and the task gets a turn in vain.
abbrev earlier : List (Moment ℕ)
earlier =
    takes_place (receives (λ f. true) (record (header 2 12) { invoke_id = 7 }) refusal)
    ∷ takes_place (starts 1 (Item.read_item read_four) none)
    ∷ resumes
    ∷ []

refused : check_result (result_attribute refusal) refusal ≡ err (request_failed 0x706)
unfolding result_attribute
refused = refl

-- A server that counts requests, and answers each with an entry of zeros and empty texts.
abbrev zeros : Item → ℕ → Result Item × ℕ
zeros _ n = (
  ok (
      Item.read_response_item (record {
        result = 0;
        read_length = 33;
        payload = replicate 33 0;
        buffer = replicate 41 0;
      })),
  suc n,
)

found : (info : AdsSymbolEntry) × (info_by_name ascii zeros (b'a' ∷ []) 0 ≡ (ok info, 1))
unfolding info_by_name string_to_byte_string ascii_bytes deserialize_entry from_buffer unpack_s
    unpack size_of from_le byte_string_to_string
found = (_, refl)

read_after_release_example :
    let s = (release (read ascii zeros (new_symbol (some (b'a' ∷ [])) none none) 0).1).1 in
    read ascii zeros s 7 ≡ (err not_implemented, s, 7)
read_after_release_example = read_after_release ascii zeros (b'a' ∷ []) zeros 0 1 7 found.0 found.1
