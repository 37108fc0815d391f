-- ===== src/Asyncio/Exchange.antt =====
-- A read by handle over the wire: the client of ads_async/asyncio/client.py, the frames of
-- ads_async/protocol.py, and the server of ads_async/asyncio/server.py.

use ads_async.Prelude.{ℕ, ◌≡◌, refl, Option}
use ads_async.Prelude.Result.{Result, ok, err}
use ads_async.Bytes.{Bytes}
use ads_async.Structs.Address.{AmsNetId}
use ads_async.Structs.Item.{Item}
use ads_async.Structs.Request.{AdsReadRequest}
use ads_async.Client.{ClientCircuit}
use ads_async.Wire.Requests.{Request}
use ads_async.Serve.Exchange.{read_request}
use ads_async.Connections.Table.{text_key}
use ads_async.Asyncio.Circuit.{AsyncioCircuit, ResponseHandler, sent}
use ads_async.Constants.IndexGroup

-- The request to read a value by handle that a circuit sends.
abbrev pub request_of :
    {F : Type 0} → AsyncioCircuit F → AmsNetId → AmsNetId → AdsReadRequest → ℕ → Request
request_of c target source item invoke_id =
    read_request item (record { net_id = target; port = c.default_port })
      (record { net_id = source; port = c.our_port }) invoke_id

module _ {F : Type 0} where
  pub sent-result :
      (h : Option ResponseHandler) (r : Result (ℕ × Bytes) × ClientCircuit ℕ) (c : AsyncioCircuit F)
      → (sent h r c).0 ≡ r.0
  sent-result h (err e, circuit) c = refl
  sent-result h (ok (invoke_id, bytes), circuit) c = refl
