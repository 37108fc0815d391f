-- ===== src/Structs/Header.antt =====
-- `AmsTcpHeader` and `AoEHeader` of ads_async/structs.py.
use Prim.Native.Nat.{bit_and, bit_or}
use ads_async.Prelude.{ℕ, ◌≡◌, Bool, not, Option, List, [], ◌∷◌, ◌++◌, get_or, drop, ◌==◌}
use ads_async.Prelude.Result.{Result, ok}
use ads_async.Bytes.{Bytes, Layout, pack, Fits}
use ads_async.Constants.{AdsCommandId, value, to_command_id}
use ads_async.Constants.Flag
use ads_async.Structs.Base.{from_buffer, from_buffer-pack}
use ads_async.Structs.Address.{AmsAddr, addr_fields, addr_of}

pub record AmsTcpHeader : Type 0 where
  pub reserved : ℕ
  pub length : ℕ

abbrev pub tcp_layout : Layout
tcp_layout = 2 ∷ 4 ∷ []

-- `AmsTcpHeader(length)`
abbrev pub tcp_header : ℕ → AmsTcpHeader
tcp_header length = record { reserved = 0; length = length }

abbrev tcp_fields : AmsTcpHeader → List ℕ
tcp_fields h = h.reserved ∷ h.length ∷ []

abbrev tcp_of : List ℕ → AmsTcpHeader
tcp_of vs = record { reserved = get_or vs 0 0; length = get_or vs 1 0 }

unfoldable pub serialize_tcp : AmsTcpHeader → Bytes
serialize_tcp h = pack tcp_layout (tcp_fields h)

unfoldable pub tcp_from_buffer : Bytes → Result AmsTcpHeader
tcp_from_buffer = from_buffer tcp_layout tcp_of

pub record AoEHeader : Type 0 where
  pub target : AmsAddr
  pub source : AmsAddr
  pub command : ℕ
  pub state_flags : ℕ
  pub length : ℕ
  pub error_code : ℕ
  pub invoke_id : ℕ

abbrev pub aoe_layout : Layout
aoe_layout = 1 ∷ 1 ∷ 1 ∷ 1 ∷ 1 ∷ 1 ∷ 2 ∷ 1 ∷ 1 ∷ 1 ∷ 1 ∷ 1 ∷ 1 ∷ 2 ∷ 2 ∷ 2 ∷ 4 ∷ 4 ∷ 4 ∷ []

abbrev pub aoe_fields : AoEHeader → List ℕ
aoe_fields h =
    addr_fields h.target
    ++ (addr_fields h.source
        ++ (h.command ∷ h.state_flags ∷ h.length ∷ h.error_code ∷ h.invoke_id ∷ []))

abbrev pub aoe_of : List ℕ → AoEHeader
aoe_of vs = record {
  target = addr_of vs;
  source = addr_of (drop 7 vs);
  command = get_or vs 14 0;
  state_flags = get_or vs 15 0;
  length = get_or vs 16 0;
  error_code = get_or vs 17 0;
  invoke_id = get_or vs 18 0;
}

unfoldable pub serialize_aoe : AoEHeader → Bytes
serialize_aoe h = pack aoe_layout (aoe_fields h)

unfoldable pub aoe_from_buffer : Bytes → Result AoEHeader
aoe_from_buffer = from_buffer aoe_layout aoe_of

-- The property `command_id`; `none` is the `ValueError` of an unknown command.
unfoldable pub command_id : AoEHeader → Option AdsCommandId
unfolding to_command_id
command_id h = to_command_id h.command

-- `AoEHeaderFlag.RESPONSE in self.state_flags`
unfoldable pub is_response : AoEHeader → Bool
is_response h = bit_and h.state_flags Flag.response == Flag.response

unfoldable pub is_request : AoEHeader → Bool
unfolding is_response
is_request h = not (is_response h)

unfoldable pub create_request :
    AmsAddr → AmsAddr → AdsCommandId → (length invoke_id state_flags error_code : ℕ) → AoEHeader
unfolding value
create_request target source command_id length invoke_id state_flags error_code = record {
  target = target;
  source = source;
  command = value command_id;
  state_flags = state_flags;
  length = length;
  error_code = error_code;
  invoke_id = invoke_id;
}

-- A response carries `ADS_COMMAND | RESPONSE`.
unfoldable pub create_response :
    AmsAddr → AmsAddr → AdsCommandId → (length invoke_id error_code : ℕ) → AoEHeader
unfolding value
create_response target source command_id length invoke_id error_code = record {
  target = target;
  source = source;
  command = value command_id;
  state_flags = bit_or Flag.ads_command Flag.response;
  length = length;
  error_code = error_code;
  invoke_id = invoke_id;
}

-- Every field within its width.
abbrev pub TcpFits : AmsTcpHeader → Type 0
TcpFits h = Fits tcp_layout (tcp_fields h)

abbrev pub AoEFits : AoEHeader → Type 0
AoEFits h = Fits aoe_layout (aoe_fields h)

pub tcp_from_buffer-serialize_tcp :
    (h : AmsTcpHeader) (rest : Bytes) → TcpFits h → tcp_from_buffer (serialize_tcp h ++ rest) ≡ ok h
unfolding tcp_from_buffer serialize_tcp
tcp_from_buffer-serialize_tcp h rest fits =
    from_buffer-pack tcp_layout tcp_of (tcp_fields h) rest fits

-- An AoE header whose fields fit their widths is read back from its bytes, whatever follows them.
pub aoe_from_buffer-serialize_aoe :
    (h : AoEHeader) (rest : Bytes) → AoEFits h → aoe_from_buffer (serialize_aoe h ++ rest) ≡ ok h
unfolding aoe_from_buffer serialize_aoe
aoe_from_buffer-serialize_aoe h rest fits =
    from_buffer-pack aoe_layout aoe_of (aoe_fields h) rest fits
