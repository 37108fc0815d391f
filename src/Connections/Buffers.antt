-- ===== src/Connections/Buffers.antt =====
-- The buffer of a connection of ads_async/protocol.py plays no part in the commands of its circuits.

use ads_async.Prelude.{arith, ◌≡◌, refl, sym, ap, ◌∙◌, Option-cases, none, some, inl, inr, [], ◌∷◌}
use ads_async.Prelude.Result.{Result, err, key_error}
use ads_async.Bytes.{Bytes}
use ads_async.Structs.Header.{AoEHeader}
use ads_async.Structs.Item.{Item}
use ads_async.Structs.Address.{AmsNetId}
use ads_async.Structs.NetId.{repr}
use ads_async.Structs.Text.{Text, Codec}
use ads_async.Server.State.{ServerCircuit}
use ads_async.Serve.{answer}
use ads_async.Connections.Table.{
  Key, Table, find, put, find-put, Address, address_key, same_address_refl, text_key,
}
use ads_async.Connections.Defs.{Connection, NetIdArgument, net_id_key, net_id_struct, get_circuit}
use ads_async.Connections.Server.{
  Server, Action, no_database, make_circuit, store_circuit, act_on, serve,
}
use ads_async.Connections.Receive.{set_buffer}

put-put :
    {K V : Type 0} ⦃key : Key K⦄ (k : K) (v w : V) (t : Table K V) → put k v (put k w t) ≡ put k v t
unfolding put
put-put ⦃key⦄ k v w [] = rw (key.same_refl k) refl
put-put ⦃key⦄ k v w ((j, x) ∷ t) = ground (arith, key.same_refl k, put-put k v w t)

abbrev Peers : Type 0
Peers = Table Address (Connection ServerCircuit)

find-put_same :
    (a : Address) (c : Connection ServerCircuit) (t : Peers) → find a (put a c t) ≡ some c
find-put_same a c t = find-put a a c t ∙ rw (same_address_refl a) refl

set_buffer-connected :
    (a : Address) (b : Bytes) (s : Server) (c : Connection ServerCircuit)
    → find a s.connections ≡ some c
    → set_buffer a b s
      ≡ record s { connections = put a (record c { recv_buffer = b }) s.connections }
unfolding set_buffer
set_buffer-connected a b s c e = rw (set_buffer, e) refl

set_buffer-none :
    (a : Address) (b : Bytes) (s : Server) → find a s.connections ≡ none → set_buffer a b s ≡ s
unfolding set_buffer
set_buffer-none a b s e = rw (set_buffer, e) refl

-- The buffer of a connection that was just stored.
set_buffer-put :
    (a : Address) (b : Bytes) (s : Server) (c : Connection ServerCircuit)
    → set_buffer a b (record s { connections = put a c s.connections })
      ≡ record s { connections = put a (record c { recv_buffer = b }) s.connections }
set_buffer-put a b s c =
    set_buffer-connected a b (record s { connections = put a c s.connections }) c
      (find-put_same a c s.connections)
    ∙ ap (λ (t : Peers). record s { connections = t })
        (put-put a (record c { recv_buffer = b }) c s.connections)

pub set_buffer-set_buffer :
    (a : Address) (x y : Bytes) (s : Server) → set_buffer a x (set_buffer a y s) ≡ set_buffer a x s
set_buffer-set_buffer a x y s = elim (Option-cases (find a s.connections)) [
  | inl out ↦ ap (set_buffer a x) (set_buffer-none a y s out)
  | inr (c, e) ↦
      ap (set_buffer a x) (set_buffer-connected a y s c e)
      ∙ set_buffer-put a x s (record c { recv_buffer = y })
      ∙ sym (set_buffer-connected a x s c e)
]

abbrev pub with_buffer : Address → Bytes → Result Bytes × Server → Result Bytes × Server
with_buffer a b (r, s) = (r, set_buffer a b s)

get_circuit-buffer :
    (make : Text → Text → ServerCircuit) (n : NetIdArgument) (b : Bytes)
    (c : Connection ServerCircuit)
    → get_circuit make n (record c { recv_buffer = b })
      ≡ ((get_circuit make n c).0, record ((get_circuit make n c).1) { recv_buffer = b })
unfolding get_circuit
get_circuit-buffer make n b c = elim (Option-cases (find (net_id_key n) c.circuits)) [
  | inl out ↦ rw (get_circuit, out) refl
  | inr (circuit, e) ↦ rw (get_circuit, e) refl
]

-- What `act_on` does with the circuit that it was given.
abbrev acted :
    Action
    → AmsNetId
    → Address
    → Server
    → ServerCircuit × Connection ServerCircuit
    → Result Bytes × Server
acted act net_id a s (circuit, connection) =
    let (result, c) = act (record circuit { database = s.database }) in
    (result, store_circuit a (repr net_id) connection c s)

act_on-set_buffer :
    (act : Action) (n : AmsNetId) (a : Address) (b : Bytes) (c : Connection ServerCircuit)
    (s : Server)
    → act_on act n a
        (record c { recv_buffer = b })
        (record s { connections = put a (record c { recv_buffer = b }) s.connections })
      ≡ with_buffer a b (act_on act n a c s)
unfolding act_on make_circuit
act_on-set_buffer act n a b c s =
    let given = get_circuit (make_circuit s) (net_id_struct n) c in
    let after = act (record (given.0) { database = s.database }) in
    let stored = record (given.1) {
      circuits = put (repr n) (record (after.1) { database = no_database }) given.1.circuits;
    } in
    ap
      (acted act n a
        (record s { connections = put a (record c { recv_buffer = b }) s.connections }))
      (get_circuit-buffer (make_circuit s) (net_id_struct n) b c)
    ∙ ap (λ (t : Peers). (after.0, record s { database = after.1.database; connections = t }))
        (put-put a (record stored { recv_buffer = b }) (record c { recv_buffer = b }) s.connections)
    ∙ ap (λ (t : Server). (after.0, t))
        (sym (set_buffer-put a b (record s { database = after.1.database }) stored))

-- A command does not look at the buffer of its connection.
pub serve-set_buffer :
    (codec : Codec) (a : Address) (b : Bytes) (header : AoEHeader) (item : Item) (s : Server)
    → serve codec a header item (set_buffer a b s) ≡ with_buffer a b (serve codec a header item s)
unfolding serve
serve-set_buffer codec a b header item s = elim (Option-cases (find a s.connections)) [
  | inl out ↦
      let unknown : serve codec a header item s ≡ (err key_error, s) = rw (serve, out) refl in
      ap (serve codec a header item) (set_buffer-none a b s out)
      ∙ unknown
      ∙ ap (λ (t : Server). (err key_error, t)) (sym (set_buffer-none a b s out))
      ∙ ap (with_buffer a b) (sym unknown)
  | inr (c, e) ↦
      let known : serve codec a header item s
          ≡ act_on (answer codec header item) header.source.net_id a c s =
        rw (serve, e) refl in
      let buffered = record c { recv_buffer = b } in
      let at_buffered : serve codec a header item
            (record s { connections = put a buffered s.connections })
          ≡ act_on (answer codec header item) header.source.net_id a buffered
              (record s { connections = put a buffered s.connections }) =
        rw (serve, find-put_same a buffered s.connections) refl in
      ap (serve codec a header item) (set_buffer-connected a b s c e)
      ∙ at_buffered
      ∙ act_on-set_buffer (answer codec header item) header.source.net_id a b c s
      ∙ ap (with_buffer a b) (sym known)
]
