-- ===== src/Server/Info.antt =====
-- The information on a symbol, by its name, in ads_async/protocol.py.
use ads_async.Prelude.{ℕ, ◌≡◌, refl, ap, ◌∙◌, some, [], ◌∷◌}
use ads_async.Prelude.Result.{ok}
use ads_async.Bytes.{Bytes}
use ads_async.Constants
use ads_async.Constants.IndexGroup
use ads_async.Structs.Item.{Item}
use ads_async.Structs.Header.{AoEHeader, command_id}
use ads_async.Structs.Request.{AdsReadWriteRequest}
use ads_async.Structs.Response.{read_response}
use ads_async.Structs.SymbolEntry.{AdsSymbolEntry, symbol_entry, serialize_entry}
use ads_async.Structs.Text.{Codec, Text, byte_string_to_string}
use ads_async.Symbols.{Symbol, Database, byte_size, get_symbol_by_name}
use ads_async.Server.State.{ServerCircuit}
use ads_async.Server.Dispatch
use ads_async.Server.Dispatch.{index_group}
use ads_async.Server.Routing.{route}
use ads_async.Server.Access.{symbol_by_payload, area_group_value, symbol_doc}
use ads_async.Server.Handlers.{read_write_info}
use ads_async.Server.Command.{call, handle_command}
use ads_async.Server.Called.{handle_command_routed}
use ads_async.Server.Values.{symbol_by_payload-found}

-- The entry of a symbol with a size.
abbrev pub info_entry : Database → Symbol → ℕ → AdsSymbolEntry
info_entry db s size =
    symbol_entry (area_group_value db s) s.offset size s.data_type 0 s.name s.type_name
      (symbol_doc s)

module _ (codec : Codec) (header : AoEHeader) where
  read_write_info-answer :
      (r : AdsReadWriteRequest) (s : Symbol) (c : ServerCircuit) (size : ℕ) (entry : Bytes)
      → symbol_by_payload codec r.payload c ≡ (ok s, c)
      → byte_size s ≡ ok size
      → serialize_entry codec (info_entry c.database s size) ≡ ok entry
      → read_write_info codec (Item.read_write_item r) c
        ≡ (ok (some (Item.read_response_item (read_response entry) ∷ [])), c)
  unfolding read_write_info
  read_write_info-answer r s c size entry found sized written =
      rw (read_write_info, found, sized, written) refl

  -- The request of the information on a symbol by its name answers the entry of the symbol, and
  -- changes nothing.
  pub handle_command-read_write_info :
      (r : AdsReadWriteRequest) (bytes : Bytes) (name : Text) (s : Symbol) (c : ServerCircuit)
      (size : ℕ) (entry : Bytes)
      → command_id header ≡ some Constants.read_write
      → r.index_group ≡ IndexGroup.sym_infobynameex
      → r.payload ≡ some bytes
      → byte_string_to_string codec bytes ≡ ok name
      → get_symbol_by_name c.database name ≡ ok s
      → byte_size s ≡ ok size
      → serialize_entry codec (info_entry c.database s size) ≡ ok entry
      → handle_command codec header (Item.read_write_item r) c
        ≡ (ok (some (Item.read_response_item (read_response entry) ∷ [])), c)
  unfolding call route index_group
  handle_command-read_write_info r bytes name s c size entry h g p named found sized written =
      handle_command_routed codec header (Item.read_write_item r) Constants.read_write
        Dispatch.read_write_info c h (rw g refl)
      ∙ read_write_info-answer r s c size entry
          (ap (λ payload. symbol_by_payload codec payload c) p
            ∙ symbol_by_payload-found codec header bytes name s c named found)
          sized written
