-- ===== src/Symbols/Map/Covered.antt =====
-- `map_symbols_in_memory` of ads_async/symbols.py against what it is for.
use ads_async.Prelude.{List}
use ads_async.Bytes.{Bytes}
