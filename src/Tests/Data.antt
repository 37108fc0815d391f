-- ===== src/Tests/Data.antt =====
-- The inputs of the tests: two addresses, headers between them, and a database with two symbols.
use ads_async.Prelude.{ℕ, false, none, [], ◌∷◌, replicate}
use ads_async.Constants.{int16}
use ads_async.Structs.Address.{AmsAddr}
use ads_async.Structs.Header.{AoEHeader}
use ads_async.Symbols.{Symbol, basic, Database, DataArea, area_group, internal}
use ads_async.Server.State.{ServerCircuit}
use ads_async.Counter.{circuit_counter}

abbrev pub client_addr : AmsAddr
client_addr = record {
  net_id = record { octet1 = 1; octet2 = 2; octet3 = 3; octet4 = 4; octet5 = 1; octet6 = 1 };
  port = 40000;
}

abbrev pub server_addr : AmsAddr
server_addr = record {
  net_id = record { octet1 = 5; octet2 = 6; octet3 = 7; octet4 = 8; octet5 = 1; octet6 = 1 };
  port = 851;
}

-- The header of a request with a command, by its number.
abbrev pub header : ℕ → ℕ → AoEHeader
header command length = record {
  target = server_addr;
  source = client_addr;
  command = command;
  state_flags = 4;
  length = length;
  error_code = 0;
  invoke_id = 101;
}

-- A 16-bit symbol, of a name of one character.
abbrev pub word_symbol : ℕ → ℕ → Symbol
word_symbol letter offset = record {
  name = letter ∷ [];
  kind = basic;
  data_area = 0;
  offset = offset;
  data_type = int16;
  array_length = 1;
  type_name = 73 ∷ 78 ∷ 84 ∷ [];
  bit_offset = none;
  pointer = false;
  comment = none;
}

abbrev pub counts : Symbol
counts = word_symbol 97 2

abbrev pub limits : Symbol
limits = word_symbol 98 4

abbrev pub area : DataArea
area = record {
  index_group = area_group internal;
  memory = 1 ∷ 2 ∷ 3 ∷ 4 ∷ 5 ∷ 6 ∷ 7 ∷ 8 ∷ [];
  symbols = limits ∷ counts ∷ [];
}

abbrev pub database : Database
database = record { data_areas = area ∷ []; index_groups = [] }

-- A circuit with the handle 101 of `counts`.
abbrev pub circuit : ServerCircuit
circuit = record {
  database = database;
  handle_to_symbol = (101, counts) ∷ [];
  handle_to_notification = [];
  handle_counter = record { value = 101; max_count = 4294967296 };
  notification_counter = circuit_counter;
  name = replicate 16 0;
}
