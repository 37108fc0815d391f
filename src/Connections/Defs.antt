-- ===== src/Connections/Defs.antt =====
-- `_Connection`, `ClientConnection` and `ServerConnection` of ads_async/protocol.py. The class of the
-- circuits is the parameter `C`; tags for logging are left out.
use ads_async.Prelude.{Option, none, some, [], ◌∷◌}
use ads_async.Bytes.{Bytes}
use ads_async.Structs.Address.{AmsNetId}
use ads_async.Structs.NetId.{repr}
use ads_async.Structs.Text.{Text}
use ads_async.Connections.Table.{Table, find, put, Address, text_key}

pub data Role : Type 0 where
  client_role server_role : Role

pub record Connection (C : Type 0) : Type 0 where
  pub role : Role
  pub our_address : Address
  pub our_net_id : Text
  pub their_address : Address
  pub recv_buffer : Bytes
  pub circuits : Table Text C

-- "not_yet_set"
abbrev pub not_yet_set : Text
not_yet_set = b'n' ∷ b'o' ∷ b't' ∷ b'_' ∷ b'y' ∷ b'e' ∷ b't' ∷ b'_' ∷ b's' ∷ b'e' ∷ b't' ∷ []

-- The setters of `our_address` and `our_net_id`; an empty text counts as none.
unfoldable pub address_or_default : Option Address → Address
address_or_default none = record { host = not_yet_set; port = 0 }
address_or_default (some a) = a

unfoldable pub net_id_or_default : Option Text → Text
net_id_or_default none = not_yet_set
net_id_or_default (some []) = not_yet_set
net_id_or_default (some (c ∷ cs)) = c ∷ cs

-- The argument of `get_circuit`.
pub data NetIdArgument : Type 0 where
  net_id_text : Text → NetIdArgument
  net_id_struct : AmsNetId → NetIdArgument

unfoldable pub net_id_key : NetIdArgument → Text
net_id_key (net_id_text t) = t
net_id_key (net_id_struct a) = repr a

module _ {C : Type 0} where
  unfoldable pub set_our_address : Option Address → Connection C → Connection C
  unfolding address_or_default
  set_our_address a c = record c { our_address = address_or_default a }

  unfoldable pub set_our_net_id : Option Text → Connection C → Connection C
  unfolding net_id_or_default
  set_our_net_id t c = record c { our_net_id = net_id_or_default t }

  unfoldable pub new_connection : Address → Role → Option Address → Option Text → Connection C
  unfolding address_or_default net_id_or_default
  new_connection their_address role our_address our_net_id = record {
    role = role;
    our_address = address_or_default our_address;
    our_net_id = net_id_or_default our_net_id;
    their_address = their_address;
    recv_buffer = [];
    circuits = [];
  }

  -- `circuit_class(our_net_id=…, their_net_id=…)` is `make`.
  unfoldable pub get_circuit : (Text → Text → C) → NetIdArgument → Connection C → C × Connection C
  unfolding net_id_key
  get_circuit make argument c = elim (find (net_id_key argument) c.circuits) [
    | some circuit ↦ (circuit, c)
    | none ↦
        let circuit = make c.our_net_id (net_id_key argument) in
        (circuit, record c { circuits = put (net_id_key argument) circuit c.circuits })
  ]

-- `ClientConnection` and `ServerConnection`
unfoldable pub client_connection : {C : Type 0} → Address → Text → Address → Connection C
unfolding new_connection
client_connection our_address our_net_id their_address =
    new_connection their_address client_role (some our_address) (some our_net_id)

unfoldable pub server_connection : {C : Type 0} → Address → Text → Address → Connection C
unfolding new_connection
server_connection our_address our_net_id their_address =
    new_connection their_address server_role (some our_address) (some our_net_id)
