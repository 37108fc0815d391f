-- ===== src/Structs/Address.antt =====
-- `AmsNetId` and `AmsAddr` of ads_async/structs.py.
use ads_async.Prelude.{ℕ, List, [], ◌∷◌, get_or}
use ads_async.Bytes.{Bytes, Layout, pack}

-- `octets : c_uint8 * 6`
pub record AmsNetId : Type 0 where
  pub octet1 : ℕ
  pub octet2 : ℕ
  pub octet3 : ℕ
  pub octet4 : ℕ
  pub octet5 : ℕ
  pub octet6 : ℕ

abbrev pub net_id_layout : Layout
net_id_layout = 1 ∷ 1 ∷ 1 ∷ 1 ∷ 1 ∷ 1 ∷ []

abbrev pub net_id_fields : AmsNetId → List ℕ
net_id_fields a = a.octet1 ∷ a.octet2 ∷ a.octet3 ∷ a.octet4 ∷ a.octet5 ∷ a.octet6 ∷ []

abbrev pub net_id_of : List ℕ → AmsNetId
net_id_of vs = record {
  octet1 = get_or vs 0 0;
  octet2 = get_or vs 1 0;
  octet3 = get_or vs 2 0;
  octet4 = get_or vs 3 0;
  octet5 = get_or vs 4 0;
  octet6 = get_or vs 5 0;
}

-- `AmsNetId.serialize`
unfoldable pub serialize_net_id : AmsNetId → Bytes
serialize_net_id a = pack net_id_layout (net_id_fields a)

pub record AmsAddr : Type 0 where
  pub net_id : AmsNetId
  pub port : ℕ

abbrev pub addr_layout : Layout
addr_layout = 1 ∷ 1 ∷ 1 ∷ 1 ∷ 1 ∷ 1 ∷ 2 ∷ []

abbrev pub addr_fields : AmsAddr → List ℕ
addr_fields a =
    a.net_id.octet1 ∷ a.net_id.octet2 ∷ a.net_id.octet3 ∷ a.net_id.octet4 ∷ a.net_id.octet5
    ∷ a.net_id.octet6 ∷ a.port ∷ []

abbrev pub addr_of : List ℕ → AmsAddr
addr_of vs = record { net_id = net_id_of vs; port = get_or vs 6 0 }
