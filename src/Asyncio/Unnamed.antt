-- ===== src/Asyncio/Unnamed.antt =====
-- Connections of ads_async/asyncio/client.py that are made without a net id.
use ads_async.Prelude.{
  ℕ, ◌⊎◌, ◌∷◌, ap, ◌∙◌, ◌≡◌, refl, Bool, Option, none, some, inl, inr, List, [],
}
use ads_async.Prelude.Result.{ok, err, value_error}
use ads_async.Structs.Item.{Item}
use ads_async.Structs.NetId.{
  from_string, split, octets, octet, signed, lstrip, rstrip, digits_value, six, of_octets,
}
use ads_async.Structs.Text.{Text}
use ads_async.Structs.Address.{AmsNetId}
use ads_async.Asyncio.Exchange.{sent-result}
use ads_async.Connections.Table.{Address, find}
use ads_async.Connections.Defs.{NetIdArgument, not_yet_set, new_connection}
use ads_async.Asyncio.Circuit.{
  AsyncioCircuit, ResponseHandler, circuit_request, or_default_port, send_item,
}
use ads_async.Asyncio.Connection.{
  ClientConnection, new_client_connection, connected, client_circuit,
}

-- A text that is no net id raises `ValueError`.
from_string-err :
    (t : Text) → (from_string t ≡ err value_error) ⊎ ((a : AmsNetId) × (from_string t ≡ ok a))
unfolding from_string
from_string-err t = of_octets_cases (octets (split b'.' t))
  where
    six_cases : (ns : List ℕ) → (six ns ≡ err value_error) ⊎ ((a : AmsNetId) × (six ns ≡ ok a))
    six_cases [] = inl refl
    six_cases (a ∷ []) = inl refl
    six_cases (a ∷ (b ∷ [])) = inl refl
    six_cases (a ∷ (b ∷ (c ∷ []))) = inl refl
    six_cases (a ∷ (b ∷ (c ∷ (d ∷ [])))) = inl refl
    six_cases (a ∷ (b ∷ (c ∷ (d ∷ (e ∷ []))))) = inl refl
    six_cases (a ∷ (b ∷ (c ∷ (d ∷ (e ∷ (f ∷ [])))))) = inr (_, refl)
    six_cases (a ∷ (b ∷ (c ∷ (d ∷ (e ∷ (f ∷ (g ∷ ns))))))) = inl refl

    of_octets_cases :
        (o : Option (List ℕ))
        → (of_octets o ≡ err value_error) ⊎ ((a : AmsNetId) × (of_octets o ≡ ok a))
    of_octets_cases none = inl refl
    of_octets_cases (some ns) = six_cases ns

-- "not_yet_set" is none.
not_yet_set-err : from_string not_yet_set ≡ err value_error
unfolding from_string split octets octet signed lstrip rstrip digits_value
not_yet_set-err = refl

module _ {F : Type 0} where
  -- A circuit under that name sends nothing.
  send_item-err :
      (item : Item) (port : Option ℕ) (handler : Option ResponseHandler) (c : AsyncioCircuit F)
      → c.our_net_id ≡ not_yet_set
      → (send_item item port handler c).0 ≡ err value_error
  unfolding send_item circuit_request
  send_item-err item port handler c unset =
      let source : from_string c.our_net_id ≡ err value_error =
        ap from_string unset ∙ not_yet_set-err in
      let refused : (circuit_request c.net_id (or_default_port port c.default_port) c.our_net_id
            c.our_port item c.circuit).0
          ≡ err value_error =
        elim (from_string-err c.net_id) [
          | inl e ↦ rw (circuit_request, e) refl
          | inr (a, e) ↦ rw (circuit_request, e, source) refl
        ] in
      sent-result handler _ c ∙ refused

-- A client that is made without a net id of its own is not given one when it connects: no circuit of it can
-- send a request, whatever the target.
pub unnamed_cannot_send :
    (F : Type 0) (server : Address) (rate : Option ℕ) (is_v6 : Bool) (our_ip : Text) (our_port : ℕ)
    (net_id : Option NetIdArgument) (item : Item) (port : Option ℕ)
    (handler : Option ResponseHandler)
    → let client : ClientConnection F =
        connected is_v6 our_ip our_port (new_client_connection server none rate) in
      (send_item item port handler (client_circuit net_id client).0).0 ≡ err value_error
unfolding client_circuit connected new_client_connection find new_connection
unnamed_cannot_send F server rate is_v6 our_ip our_port net_id item port handler =
    let client : ClientConnection F =
      connected is_v6 our_ip our_port (new_client_connection server none rate) in
    send_item-err item port handler (client_circuit net_id client).0 refl
