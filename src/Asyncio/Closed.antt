-- ===== src/Asyncio/Closed.antt =====
-- What `close` of a circuit of ads_async/asyncio/client.py writes.
use ads_async.Prelude.{
  ℕ, ◌<◌, ◌≡◌, refl, ap, ◌∙◌, false, Option, Option-cases, none, some, inl, inr, List, [], ◌∷◌,
  insert,
}
use ads_async.Prelude.Result.{Result, ok}
use ads_async.Bytes.{Bytes}
use ads_async.Constants
use ads_async.Structs.Address.{AmsAddr}
use ads_async.Structs.Item.{Item}
use ads_async.Structs.Request.{AdsWriteRequest}
use ads_async.Structs.NetId.{from_string}
use ads_async.Structs.Text.{Text}
use ads_async.Counter.Fresh.{next-FirstFree}
use ads_async.Client.{ClientCircuit, send}
use ads_async.Client.Requests.{release_handle}
use ads_async.Wire.{request_to_wire}
use ads_async.Wire.Requests.{frame_of}
use ads_async.Connections.Table.{Table}
use ads_async.Asyncio.Symbols.{ClientSymbol, release}
use ads_async.Asyncio.Circuit.{AsyncioCircuit, add_handler, circuit_request, send_item, sent}
use ads_async.Asyncio.Closing.{
  release_all, close_circuit, and_then, written_first, keep_symbol, clear_symbols,
}

-- The frame that releases a handle, under an invoke id.
abbrev pub release_frame : AmsAddr → AmsAddr → ℕ → ℕ → Bytes
release_frame target source handle invoke_id = frame_of (record {
  item = Item.write_item (release_handle handle);
  command = Constants.write;
  target = target;
  source = source;
  invoke_id = invoke_id;
})

-- Frames that release the handles of symbols, those that have one, in their order.
pub data Releases (target source : AmsAddr) : Table Text ClientSymbol → List Bytes → Type 0 where
  none_left : Releases target source [] []
  no_handle :
      {name : Text} {s : ClientSymbol} {rest : Table Text ClientSymbol} {frames : List Bytes}
      → s.handle ≡ none
      → Releases target source rest frames
      → Releases target source ((name, s) ∷ rest) frames
  one_released :
      {name : Text} {s : ClientSymbol} {rest : Table Text ClientSymbol} {frames : List Bytes}
      → (handle invoke_id : ℕ) → s.handle ≡ some handle
      → Releases target source rest frames
      → Releases target source
          ((name, s) ∷ rest)
          (release_frame target source handle invoke_id ∷ frames)

-- A circuit whose net ids can be read, with its addresses.
pub record CanSend {F : Type 0} (target source : AmsAddr) (c : AsyncioCircuit F) : Type 0 where
  pub target_read : from_string c.net_id ≡ ok target.net_id
  pub source_read : from_string c.our_net_id ≡ ok source.net_id
  pub target_port : c.default_port ≡ target.port
  pub source_port : c.our_port ≡ source.port
  pub ids_left : 0 < c.circuit.invoke_counter.max_count

-- A symbol without a handle is left as it is.
release-none : (s : ClientSymbol) → s.handle ≡ none → release s ≡ (none, s)
unfolding release
release-none s out = by_handle s.handle out
  where
    by_handle :
        (o : Option ℕ)
        → o ≡ none
        → ◌≡◌ {A = Option AdsWriteRequest × ClientSymbol}
            (elim o as (λ _. Option AdsWriteRequest × ClientSymbol) [
              | none ↦ (none, s)
              | some handle ↦ (some (release_handle handle), record s { handle = none })
            ])
            (none, s)
    by_handle none e = refl
    by_handle (some handle) e = absurd (cc e)

module _ {F : Type 0} (target source : AmsAddr) where
  -- A release is sent, and leaves a circuit that can send the next one.
  send-release :
      (handle : ℕ) (c : AsyncioCircuit F)
      → CanSend target source c
      → (invoke_id : ℕ) × (d : AsyncioCircuit F) × (send_item
            (Item.write_item (release_handle handle))
            none
            none
            c
          ≡ (ok (invoke_id, release_frame target source handle invoke_id), d))
        × CanSend target source d
  unfolding send_item circuit_request send request_to_wire add_handler
  send-release handle c can =
      let (v, found, _) =
        next-FirstFree (λ _. false) c.circuit.invoke_counter 0 can.ids_left refl in
      let item = Item.write_item (release_handle handle) in
      let circuit = record (c.circuit) {
        invoke_counter = record { value = v; max_count = c.circuit.invoke_counter.max_count };
        id_to_request = insert v item c.circuit.id_to_request;
      } in
      let request : circuit_request c.net_id c.default_port c.our_net_id c.our_port item c.circuit
          ≡ (ok (v, release_frame target source handle v), circuit) =
        rw
          (
            circuit_request, can.target_read, can.source_read, send, found, can.target_port,
            can.source_port,
          )
          refl in
      (
        v,
        record c { circuit = circuit },
        ap (λ (p : Result (ℕ × Bytes) × ClientCircuit ℕ). sent none p c) request,
        record {
          target_read = can.target_read;
          source_read = can.source_read;
          target_port = can.target_port;
          source_port = can.source_port;
          ids_left = can.ids_left;
        },
      )

  -- One symbol, by what its `release` gives.
  abbrev release_first :
      Text
      → Table Text ClientSymbol
      → AsyncioCircuit F
      → Option AdsWriteRequest × ClientSymbol
      → Result (List Bytes) × AsyncioCircuit F
  release_first name rest c (none, s) = release_all rest c
  release_first name rest c (some request, s) =
      and_then (λ c'. release_all rest (keep_symbol name s c'))
        (send_item (Item.write_item request) none none c)

  release_all-cons :
      (name : Text) (s : ClientSymbol) (rest : Table Text ClientSymbol) (c : AsyncioCircuit F)
      → release_all ((name, s) ∷ rest) c ≡ release_first name rest c (release s)
  unfolding release_all
  release_all-cons name s rest c = by_request (release s).0
    where
      by_request :
          (o : Option AdsWriteRequest)
          → (elim o [
            | none ↦ release_all rest c
            | some request ↦
                and_then
                  (λ c'. release_all rest (keep_symbol name (release s).1 c'))
                  (send_item (Item.write_item request) none none c)
          ])
            ≡ release_first name rest c (o, (release s).1)
      by_request none = refl
      by_request (some request) = refl

  release_all-Releases :
      (symbols : Table Text ClientSymbol) (c : AsyncioCircuit F)
      → CanSend target source c
      → (frames : List Bytes) × (d : AsyncioCircuit F) × (release_all symbols c ≡ (ok frames, d))
        × Releases target source symbols frames
  unfolding release_all release
  release_all-Releases [] c can = ([], c, refl, none_left)
  release_all-Releases ((name, s) ∷ rest) c can = elim (Option-cases s.handle) [
    | inl out ↦
        let (frames, d, e, r) = release_all-Releases rest c can in
        (
          frames,
          d,
          release_all-cons name s rest c ∙ ap (release_first name rest c) (release-none s out) ∙ e,
          no_handle out r,
        )
    | inr (handle, has) ↦
        let s' = record s { handle = none } in
        let released : release s ≡ (some (release_handle handle), s') = rw (release, has) refl in
        let (v, d, e, can') = send-release handle c can in
        let (frames, last, f, r) = release_all-Releases rest (keep_symbol name s' d) (record {
          target_read = can'.target_read;
          source_read = can'.source_read;
          target_port = can'.target_port;
          source_port = can'.source_port;
          ids_left = can'.ids_left;
        }) in
        (
          release_frame target source handle v ∷ frames,
          last,
          release_all-cons name s rest c
              ∙ ap (release_first name rest c) released
              ∙ ap (and_then (λ c'. release_all rest (keep_symbol name s' c'))) e
              ∙ ap (written_first (release_frame target source handle v)) f,
          one_released handle v has r,
        )
  ]

  -- Closing a circuit whose net ids can be read, and whose invoke ids have a limit above 0, succeeds: one
  -- frame is written for each symbol that has a handle, in the order of the symbols, which releases that
  -- handle, and no symbol is left.
  pub close_circuit-Releases :
      (c : AsyncioCircuit F)
      → CanSend target source c
      → (frames : List Bytes) × (d : AsyncioCircuit F) × (close_circuit c ≡ (ok frames, d))
        × Releases target source c.symbols frames
        × (d.symbols ≡ [])
  unfolding close_circuit
  close_circuit-Releases c can =
      let (frames, d, e, r) = release_all-Releases c.symbols c can in
      (frames, record d { symbols = [] }, ap clear_symbols e, r, refl)
