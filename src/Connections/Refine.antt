-- ===== src/Connections/Refine.antt =====
-- The server of ads_async/protocol.py keeps its promise: every run of it is a run of the sessions.
use mathlib.Core.Path.{fun_ext}
use ads_async.Prelude.{
  ◌≡◌, refl, ap, ◌∙◌, Option, none, some, List, [], ◌∷◌, true, false, Bool, if◌then◌else◌,
}
use ads_async.Prelude.Result.{Result, ok}
use ads_async.Bytes.{Bytes}
use ads_async.Structs.Header.{AoEHeader}
use ads_async.Structs.Item.{Item}
use ads_async.Structs.Text.{Text, Codec}
use ads_async.Structs.NetId.{repr}
use ads_async.Structs.Address.{AmsNetId}
use ads_async.Symbols.{same_text}
use ads_async.Server.State.{ServerCircuit, new_circuit}
use ads_async.Serve.{answer}
use ads_async.Connections.Table.{
  Table, find, put, remove, find-put, find-remove, Address, same_address, text_key, address_key,
}
use ads_async.Connections.Defs.{Connection, get_circuit, server_connection}
use ads_async.Connections.Server.{
  no_database, Server, remove_connection, make_circuit, store_circuit, Action, act_on, serve,
}
use ads_async.Connections.Sessions.{
  Event, connects, disconnects, commands, Sessions, set_peer, set_session, act_session,
  session_step, server_step, view_circuit, view_connection, view, viewed, server_run, session_run,
}

view-put :
    (a b : Address) (c : Connection ServerCircuit) (name : Bytes)
    (t : Table Address (Connection ServerCircuit))
    → view_connection name (find b (put a c t)) ≡ (
        if same_address a b then view_connection name (some c) else view_connection name (find b t))
view-put a b c name t = ap (view_connection name) (find-put a b c t) ∙ branch (same_address a b)
  where
    branch :
        (x : Bool)
        → view_connection name (if x then some c else find b t)
          ≡ (if x then view_connection name (some c) else view_connection name (find b t))
    branch true = refl
    branch false = refl

view-remove :
    (a b : Address) (name : Bytes) (t : Table Address (Connection ServerCircuit))
    → view_connection name (find b (remove a t))
      ≡ (if same_address a b then none else view_connection name (find b t))
view-remove a b name t = ap (view_connection name) (find-remove a b t) ∙ branch (same_address a b)
  where
    branch :
        (x : Bool)
        → view_connection name (if x then none else find b t)
          ≡ (if x then none else view_connection name (find b t))
    branch true = refl
    branch false = refl

-- The sessions of a connection after a circuit is stored in it.
view_circuit-put :
    (name : Bytes) (net_id t : Text) (c : ServerCircuit) (circuits : Table Text ServerCircuit)
    → view_circuit name (find t (put net_id c circuits))
      ≡ set_session net_id c (λ u. view_circuit name (find u circuits)) t
view_circuit-put name net_id t c circuits =
    ap (view_circuit name) (find-put net_id t c circuits) ∙ branch (same_text net_id t)
  where
    branch :
        (x : Bool)
        → view_circuit name (if x then some c else find t circuits)
          ≡ (if x then c else view_circuit name (find t circuits))
    branch true = refl
    branch false = refl

view_circuit-put_twice :
    (name : Bytes) (net_id t : Text) (c c' : ServerCircuit) (circuits : Table Text ServerCircuit)
    → view_circuit name (find t (put net_id c (put net_id c' circuits)))
      ≡ set_session net_id c (λ u. view_circuit name (find u circuits)) t
view_circuit-put_twice name net_id t c c' circuits =
    view_circuit-put name net_id t c (put net_id c' circuits)
    ∙ ap (λ d. if same_text net_id t then c else d) (view_circuit-put name net_id t c' circuits)
    ∙ branch (same_text net_id t)
  where
    branch :
        (x : Bool)
        → (if x then c else if x then c' else view_circuit name (find t circuits))
          ≡ (if x then c else view_circuit name (find t circuits))
    branch true = refl
    branch false = refl

abbrev with_peers :
    Result Bytes → Sessions → (Address → Option (Text → ServerCircuit)) → Result Bytes × Sessions
with_peers r s peer = (r, record s { peer = peer })

module _ (act : Action) (a : Address) (net_id : AmsNetId) (s : Server)
    (c : Connection ServerCircuit) where
  abbrev session : Text → ServerCircuit
  session t = view_circuit s.name (find t c.circuits)

  abbrev peers_after : Option (Text → ServerCircuit) → Address → Option (Text → ServerCircuit)
  peers_after v = set_peer a v (view s).peer

  -- A circuit that is stored in a connection becomes the session of its net id.
  viewed-store_circuit :
      (r : Result Bytes) (d : ServerCircuit) (k : Connection ServerCircuit)
      → ((t : Text)
          → view_circuit s.name
              (find t (put (repr net_id) (record d { database = no_database }) k.circuits))
            ≡ set_session (repr net_id) (record d { database = no_database }) session t)
      → viewed (r, store_circuit a (repr net_id) k d s) ≡ (
        r,
        record (view s) {
          database = d.database;
          peer =
              peers_after
                (some (set_session (repr net_id) (record d { database = no_database }) session));
        },
      )
  viewed-store_circuit r d k sessions =
      ap (λ p. (r, record (view s) { database = d.database; peer = p }))
        (fun_ext (λ b. view-put a b _ s.name s.connections)
          ∙ ap (λ f. peers_after (some f)) (fun_ext sessions))

  act_on-session :
      (o : Option ServerCircuit)
      → find (repr net_id) c.circuits ≡ o
      → viewed (act_on act net_id a c s) ≡ act_session act (repr net_id) a session (view s)
  unfolding act_on make_circuit
  act_on-session none e =
      rw (act_on, get_circuit, e)
        (viewed-store_circuit _ _
          (record c { circuits = put (repr net_id) (new_circuit no_database s.name) c.circuits })
          (λ t. view_circuit-put_twice s.name (repr net_id) t _ _ c.circuits))
  act_on-session (some circuit) e =
      rw (act_on, get_circuit, e)
        (viewed-store_circuit _ _ c (λ t. view_circuit-put s.name (repr net_id) t _ c.circuits))

module _ (codec : Codec) (s : Server) where
  connects_lem :
      (ours theirs : Address)
      → viewed (server_step codec (connects ours theirs) s)
        ≡ session_step codec (connects ours theirs) (view s)
  unfolding server_step session_step server_connection new_circuit find
  connects_lem ours theirs =
      ap (with_peers (ok []) (view s)) (fun_ext (λ b. view-put theirs b _ s.name s.connections))

  disconnects_lem :
      (a : Address) (o : Option (Connection ServerCircuit))
      → find a s.connections ≡ o
      → viewed (server_step codec (disconnects a) s) ≡ session_step codec (disconnects a) (view s)
  unfolding server_step session_step
  disconnects_lem a none e = rw (server_step, remove_connection, session_step, e) refl
  disconnects_lem a (some c) e =
      rw (server_step, remove_connection, session_step, e)
        (ap (with_peers (ok []) (view s)) (fun_ext (λ b. view-remove a b s.name s.connections)))

  commands_lem :
      (a : Address) (header : AoEHeader) (item : Item) (o : Option (Connection ServerCircuit))
      → find a s.connections ≡ o
      → viewed (server_step codec (commands a header item) s)
        ≡ session_step codec (commands a header item) (view s)
  unfolding server_step session_step
  commands_lem a header item none e = rw (server_step, serve, session_step, e) refl
  commands_lem a header item (some c) e =
      rw (server_step, serve, session_step, e)
        (act_on-session (answer codec header item) a header.source.net_id s c
          (find (repr header.source.net_id) c.circuits) refl)

step_refines :
    (codec : Codec) (e : Event) (s : Server)
    → viewed (server_step codec e s) ≡ session_step codec e (view s)
step_refines codec (connects ours theirs) s = connects_lem codec s ours theirs
step_refines codec (disconnects a) s = disconnects_lem codec s a (find a s.connections) refl
step_refines codec (commands a header item) s =
    commands_lem codec s a header item (find a s.connections) refl

abbrev pub viewed_run : List (Result Bytes) × Server → List (Result Bytes) × Sessions
viewed_run (rs, s) = (rs, view s)

-- However clients connect, send commands and disconnect, the server answers, byte for byte and exception
-- for exception, what a collection of sessions answers that has one for each connected address and each net id, starts
-- a new one when the address connects, and lets a command change no session but its own and the shared
-- database; and it ends with the same sessions.
pub server_run_refines :
    (codec : Codec) (es : List Event) (s : Server)
    → viewed_run (server_run codec es s) ≡ session_run codec es (view s)
unfolding server_run session_run
server_run_refines codec [] s = refl
server_run_refines codec (e ∷ es) s =
    ap (λ x. ((server_step codec e s).0 ∷ x.0, x.1))
      (server_run_refines codec es (server_step codec e s).1)
    ∙ ap
        (λ (x : Result Bytes × Sessions).
          (x.0 ∷ (session_run codec es x.1).0, (session_run codec es x.1).1))
        (step_refines codec e s)
