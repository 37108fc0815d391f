-- ===== src/Server/Called.antt =====
-- `handle_command` of ads_async/protocol.py as the method that `get_handler` finds.
use ads_async.Prelude.{ℕ, suc, ◌≡◌, refl, ap, ◌∙◌, some}
use ads_async.Prelude.Result.{Exception, ok, err}
use ads_async.Constants.{AdsCommandId}
use ads_async.Structs.Item.{Item}
use ads_async.Structs.Header.{AoEHeader, command_id}
use ads_async.Structs.Text.{Codec}
use ads_async.Server.State.{ServerCircuit, continue}
use ads_async.Server.Dispatch.{Handler, get_handler, index_group}
use ads_async.Server.Routing.{route, handler_for-route}
use ads_async.Server.Command.{call, handle_command_within, handle_command}

-- The handler of a header with a known command, by the routing table.
pub get_handler-route :
    (header : AoEHeader) (item : Item) (command : AdsCommandId)
    → command_id header ≡ some command
    → get_handler header item ≡ route command (index_group item)
unfolding get_handler
get_handler-route header item command e =
    rw (get_handler, e) (handler_for-route command (index_group item))

module _ (codec : Codec) (header : AoEHeader) (item : Item) where
  handle_command_within-call :
      (depth : ℕ) (c : ServerCircuit)
      → handle_command_within codec (suc depth) header item c
        ≡ continue
            (get_handler header item)
            (call codec (handle_command_within codec depth) header item)
            c
  unfolding handle_command_within
  handle_command_within-call depth c = refl

  -- A command whose handler is found is that handler's.
  pub handle_command_called :
      (h : Handler) (c : ServerCircuit)
      → get_handler header item ≡ ok h
      → handle_command codec header item c
        ≡ call codec (handle_command_within codec 1) header item h c
  unfolding handle_command
  handle_command_called h c e =
      handle_command_within-call 1 c
      ∙ ap (λ r. continue r (call codec (handle_command_within codec 1) header item) c) e

  -- A command that no handler is found for raises.
  pub handle_command_unrouted :
      (x : Exception) (c : ServerCircuit)
      → get_handler header item ≡ err x
      → handle_command codec header item c ≡ (err x, c)
  unfolding handle_command
  handle_command_unrouted x c e =
      handle_command_within-call 1 c
      ∙ ap (λ r. continue r (call codec (handle_command_within codec 1) header item) c) e

  -- By the routing table.
  pub handle_command_routed :
      (command : AdsCommandId) (h : Handler) (c : ServerCircuit)
      → command_id header ≡ some command
      → route command (index_group item) ≡ ok h
      → handle_command codec header item c
        ≡ call codec (handle_command_within codec 1) header item h c
  handle_command_routed command h c e r =
      handle_command_called h c (get_handler-route header item command e ∙ r)
