-- ===== src/Asyncio/ByName.antt =====
-- `Symbol.read` of ads_async/asyncio/client.py by the name of a symbol, with the server of
-- ads_async/protocol.py at the other end.
use ads_async.Prelude.{ℕ, suc, ◌+◌, ◌^◌, ◌<◌, ◌≡◌, ap, ◌∙◌, some, none, length, lookup, arith}
use ads_async.Prelude.Result.{Result, ok}
use ads_async.Bytes.{Bytes, Fits}
use ads_async.Structs.Address.{AmsAddr}
use ads_async.Structs.SymbolEntry.{AdsSymbolEntry, entry_layout, entry_fields}
use ads_async.Structs.Text.{Codec, Text, IsFaithful}
use ads_async.Symbols.{Symbol, symbol_read}
use ads_async.Server.State.{ServerCircuit}
use ads_async.Server.Info.{info_entry}
use ads_async.Wire.Requests.{AddrFits}
use ads_async.Asyncio.Channel.{World, exchange}
use ads_async.Asyncio.Values.{Decoded, deserialize_data_by_symbol_entry}
use ads_async.Asyncio.Symbols.{
  ClientSymbol, new_symbol, with_info, ensure, after_ensure, read_value, read,
}
use ads_async.Asyncio.Released.{read-new_symbol}
use ads_async.Asyncio.Arrivals.{
  IsReadable, HasSimpleTexts, info_arrives, handle_arrives, value_arrives,
}

info_size_small :
    (c : ServerCircuit) (s : Symbol) (size : ℕ)
    → Fits entry_layout (entry_fields (info_entry c.database s size))
    → (info_entry c.database s size).size < 2 ^ 32
info_size_small c s size fits = fits.1.1.1.0

-- The first read of a symbol by its name, from a client to a server and back, over the frames of three
-- requests. The name has no NUL, can be encoded, and is that of a symbol of the server whose entry and
-- value can be sent, and whose texts have one byte for each character; the addresses, the name and the
-- invoke ids fit their fields, and a handle of 32 bits is left. Then the read returns what the bytes of the
-- symbol are decoded to by the symbol's own entry. The symbol of the client has that entry and a
-- handle, which the server did not have in use, and has given to the symbol; the database of the server
-- is unchanged.
pub read_by_name :
    (codec : Codec) (target source : AmsAddr) (name : Text) (bytes entry value n ty co : Bytes)
    (s : Symbol) (size i : ℕ) (c : ServerCircuit)
    → AddrFits target
    → AddrFits source
    → codec.encode name ≡ ok bytes
    → IsFaithful codec name bytes
    → 64 + length bytes < 2 ^ 32
    → IsReadable codec c name s size entry value
    → HasSimpleTexts codec s n ty co
    → 2 + i < 2 ^ 32
    → (handle : ℕ) × (d : ServerCircuit) × (read codec
          (exchange codec target source)
          (new_symbol (some name) none none)
          (i, c)
        ≡ (
          deserialize_data_by_symbol_entry codec (info_entry c.database s size) value,
          record (with_info (info_entry c.database s size) (new_symbol (some name) none none)) {
            handle = some handle;
          },
          (suc (suc (suc i)), d),
        ))
      × (lookup handle c.handle_to_symbol ≡ none)
      × (lookup handle d.handle_to_symbol ≡ some s)
      × (d.database ≡ c.database)
read_by_name codec target source name bytes entry value n ty co s size i c t o encoded faithful
      short v texts small =
    let info = info_entry c.database s size in
    let talk = exchange codec target source in
    let arrived =
      info_arrives codec target source t o name bytes encoded faithful short s size entry value n ty
        co i c v texts (omega (arith, small)) in
    let (handle, d, named, in_range, fresh, stored, same_db) =
      handle_arrives codec target source t o name bytes encoded faithful short s size entry value
        (suc i) c v (omega (arith, small)) in
    let sent =
      value_arrives codec target source t o s handle size value (suc (suc i)) info d in_range
        (info_size_small c s size v.fits) (omega (arith, small)) stored
        (ap (λ db. symbol_read db s) same_db ∙ v.value_read) v.value_fits in
    (
      handle,
      d,
      read-new_symbol codec talk name (i, c) (suc i, c) info (ok handle, (suc (suc i), d)) arrived
            named
          ∙ ap
              (λ (x : Result Decoded × World). (
                x.0,
                record (with_info info (new_symbol (some name) none none)) { handle = some handle },
                x.1,
              ))
              sent,
      fresh,
      stored,
      same_db,
    )

-- A read of a symbol of the client that has its entry and its handle already, where the server,
-- whatever has happened to it, has that handle for a symbol that can be read. What is sent fits its fields.
-- The read sends one request, returns what the bytes that the server's symbol has now are decoded to, and
-- changes neither the symbol of the client nor the server.
pub read_again :
    (codec : Codec) (target source : AmsAddr) (known : ClientSymbol) (info : AdsSymbolEntry)
    (handle : ℕ) (s : Symbol) (value : Bytes) (i : ℕ) (c : ServerCircuit)
    → AddrFits target
    → AddrFits source
    → known.handle ≡ some handle
    → known.info ≡ some info
    → handle < 2 ^ 32
    → info.size < 2 ^ 32
    → i < 2 ^ 32
    → lookup handle c.handle_to_symbol ≡ some s
    → symbol_read c.database s ≡ ok value
    → 40 + length value < 2 ^ 32
    → read codec (exchange codec target source) known (i, c)
      ≡ (deserialize_data_by_symbol_entry codec info value, known, (suc i, c))
unfolding read
read_again codec target source known info handle s value i c t o has_handle has_info h z small
      stored value_read fits =
    let talk = exchange codec target source in
    let then_known : Result Decoded × World → Result Decoded × ClientSymbol × World =
      λ x. (x.0, known, x.1) in
    ap (λ h. after_ensure codec talk (ensure codec talk h known (i, c))) has_handle
    ∙ ap (λ h. then_known (read_value codec talk h known.info (i, c))) has_handle
    ∙ ap (λ e. then_known (read_value codec talk (some handle) e (i, c))) has_info
    ∙ ap then_known (
        value_arrives codec target source t o s handle info.size value i info c h z small stored
          value_read fits)
