-- ===== src/Asyncio/Answered.antt =====
-- What becomes of the requests of `AsyncioClientCircuit` of ads_async/asyncio/client.py.
use ads_async.Prelude.Result.{Result}
use ads_async.Bytes.{Bytes}
use ads_async.Structs.Item.{Item}
