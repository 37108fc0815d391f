-- ===== src/Server/Dispatch.antt =====
-- The decorator `_command_handler`, the table `_handlers` and `get_handler` of
-- ads_async/protocol.py.
use ads_async.Prelude.{
  ℕ, Bool, true, false, ◌&&◌, Option, none, some, List, [], ◌∷◌, ◌==◌, if◌then◌else◌,
}
use ads_async.Prelude.Result.{Result, ok, err, missing_handler, value_error}
use ads_async.Constants.{
  AdsCommandId, same_command, read_device_info, read, write, read_state, write_control,
  add_device_notification, del_device_notification, read_write,
}
use ads_async.Constants.IndexGroup
use ads_async.Structs.Header.{AoEHeader, command_id}
use ads_async.Structs.Item.{Item}

-- The handler methods of `ServerCircuit`, in the order in which `inspect.getmembers` lists them.
pub data Handler : Type 0 where
  add_notification delete_notification read_catchall read_device_info_handler : Handler
  read_state_handler read_value read_write_catchall read_write_handle read_write_info : Handler
  read_write_sumup_read write_control_handler write_release_handle write_value : Handler

-- `(cmd, index_group)`
abbrev pub Key : Type 0
Key = AdsCommandId × Option ℕ

abbrev pub same_group : Option ℕ → Option ℕ → Bool
same_group none none = true
same_group none (some _) = false
same_group (some _) none = false
same_group (some g) (some h) = g == h

unfoldable pub same_key : Key → Key → Bool
unfolding same_command
same_key (c, g) (d, h) = same_command c d && same_group g h

-- `_command_handler(cmd, index_group)`. It tests for an attribute `_handle_commands`, and sets
-- `_handles_commands`: the set that an inner decorator has made is replaced by an empty one.
unfoldable pub command_handler : Key → List Key → List Key
command_handler key registered = key ∷ []

-- The decorators of each method, the innermost applied first to no keys.
unfoldable pub handles_commands : Handler → List Key
unfolding command_handler
handles_commands add_notification = command_handler (add_device_notification, none) []
handles_commands delete_notification = command_handler (del_device_notification, none) []
handles_commands read_catchall = command_handler (read, none) []
handles_commands read_device_info_handler = command_handler (read_device_info, none) []
handles_commands read_state_handler = command_handler (read_state, none) []
handles_commands read_value =
    command_handler (read, some IndexGroup.sym_valbyhnd)
      (command_handler (read, some IndexGroup.sym_valbyname) [])
handles_commands read_write_catchall = command_handler (read_write, none) []
handles_commands read_write_handle = command_handler (read_write, some IndexGroup.sym_hndbyname) []
handles_commands read_write_info = command_handler (read_write, some IndexGroup.sym_infobynameex) []
handles_commands read_write_sumup_read = command_handler (read_write, some IndexGroup.sumup_read) []
handles_commands write_control_handler = command_handler (write_control, none) []
handles_commands write_release_handle = command_handler (write, some IndexGroup.sym_releasehnd) []
handles_commands write_value =
    command_handler (write, some IndexGroup.sym_valbyhnd)
      (command_handler (write, some IndexGroup.sym_valbyname) [])

abbrev pub all_handlers : List Handler
all_handlers =
    add_notification ∷ delete_notification ∷ read_catchall ∷ read_device_info_handler
    ∷ read_state_handler ∷ read_value ∷ read_write_catchall ∷ read_write_handle ∷ read_write_info
    ∷ read_write_sumup_read ∷ write_control_handler ∷ write_release_handle ∷ write_value ∷ []

unfoldable pub has_key : Key → List Key → Bool
unfolding same_key
has_key key [] = false
has_key key (k ∷ ks) = if same_key k key then true else has_key key ks

-- `cls._handlers[key]`: no two methods have a key in common.
unfoldable pub find_handler : Key → List Handler → Option Handler
unfolding has_key handles_commands
find_handler key [] = none
find_handler key (h ∷ hs) = if has_key key (handles_commands h) then some h else find_handler key hs

-- `hasattr(command, "index_group")`, and the group.
unfoldable pub index_group : Item → Option ℕ
index_group (Item.write_item r) = some r.index_group
index_group (Item.read_write_item r) = some r.index_group
index_group (Item.read_item r) = some r.index_group
index_group (Item.add_notification_item r) = some r.index_group
index_group _ = none

abbrev pub or_handler : Option Handler → Result Handler → Result Handler
or_handler none r = r
or_handler (some h) r = ok h

abbrev pub found : Option Handler → Result Handler
found none = err missing_handler
found (some h) = ok h

-- The keys in order: the command with its group, then the command alone.
unfoldable pub handler_for : AdsCommandId → Option ℕ → Result Handler
unfolding find_handler
handler_for command none = found (find_handler (command, none) all_handlers)
handler_for command (some group) =
    or_handler (find_handler (command, some group) all_handlers)
      (found (find_handler (command, none) all_handlers))

-- `get_handler`
unfoldable pub get_handler : AoEHeader → Item → Result Handler
unfolding handler_for index_group command_id
get_handler header item = elim (command_id header) [
  | none ↦ err value_error
  | some command ↦ handler_for command (index_group item)
]
