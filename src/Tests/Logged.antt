-- ===== src/Tests/Logged.antt =====
-- The theorems on the filters and the handler of the logger, at concrete inputs.
use mathlib.Core.Logic.{◌↔◌}
use ads_async.Prelude.{ℕ, ◌≡◌, refl, true, none, some, List, [], ◌∷◌, ◌++◌, leb, ◌||◌, lookup}
use ads_async.Prelude.Result.{ok}
use ads_async.Structs.Text.{codes}
use ads_async.Connections.Table.{Address, same_address, find}
use ads_async.Symbols.{same_text}
use ads_async.Logging.{
  Level, number, named, validate_level, LogRecord, SymbolFilter, filter_symbol, address_text,
  AddressFilter, address_filter, filter_address,
}
use ads_async.Logging.Passes.{Passes, filter_symbol_iff}
use ads_async.Logging.Addresses.{printed, address_filter-printed}
use ads_async.Structs.NetId.{split, decimal}
use ads_async.Logging.Format.{
  FormattedRecord, format, formatted, plain, parts, indent, indent_lines, lines_with, text_of,
  format-lines,
}
use ads_async.Logging.Glob.{fnmatch, compile}
use ads_async.Logging.Handler.{
  Logger, IsConfigured, unconfigured, configure_all, configure_all-IsConfigured,
}

abbrev about_main : LogRecord
about_main = record {
  levelno = 10;
  symbol = some (codes "MAIN.count7");
  our_address = none;
  their_address = none;
  role = none;
}

abbrev main_filter : SymbolFilter
main_filter = record { names = codes "*.count[0-9!]" ∷ []; levelno = 30; exclusive = true }

main_passes : filter_symbol main_filter about_main ≡ true
unfolding filter_symbol fnmatch compile
main_passes = refl

filter_symbol_iff_example :
    (filter_symbol main_filter about_main ≡ true) ↔ Passes main_filter about_main
filter_symbol_iff_example = filter_symbol_iff main_filter about_main

abbrev plc : Address
plc = record { host = codes "fe80::1"; port = 48898 }

warning : validate_level (named (codes "WARNING")) ≡ ok 30
unfolding validate_level find same_text
warning = refl

abbrev peer : Address
peer = record { host = codes "10.0.0.7"; port = 851 }

abbrev of_plc : LogRecord
of_plc = record about_main { our_address = some peer; their_address = some plc }

address_filter-printed_example :
    (f : AddressFilter) × (address_filter
        (address_text (printed plc) ∷ [])
        (named (codes "WARNING"))
        true
      ≡ ok f)
    × (filter_address f of_plc ≡ ok (leb 30 10 || (same_address plc peer || same_address plc plc)))
address_filter-printed_example =
    address_filter-printed plc (named (codes "WARNING")) 30 true of_plc peer plc warning refl refl

-- The handler 9 is the logger's own.
abbrev logger : Logger
logger = record { handlers = (9, 20) ∷ []; level = 0; parent_level = 30; current_handler = none }

abbrev attempts : List (ℕ × Level)
attempts = (1, number 10) ∷ (2, named (codes "LOUD")) ∷ (3, named (codes "INFO")) ∷ []

configure_all-IsConfigured_example : IsConfigured ((9, 20) ∷ []) (configure_all attempts logger)
unfolding lookup
configure_all-IsConfigured_example =
    configure_all-IsConfigured attempts ((9, 20) ∷ []) logger (refl, (refl, (refl, tt)))
      (unconfigured refl refl)

-- The level stays at the lowest.
configured_level : (configure_all attempts logger).level ≡ 10
unfolding configure_all validate_level find same_text
configured_level = refl

abbrev two_lines : FormattedRecord
two_lines = record {
  levelname = codes "INFO";
  asctime = codes "200101 00:00:00";
  msecs = 7;
  module_name = codes "client";
  lineno = 42;
  our_address = some plc;
  direction = some (codes "<<<---");
  their_address = none;
  bytesize = some 46;
  counter = some (1, 2);
  sequence = none;
  symbol = none;
  message = codes "read";
  exc_text = some (codes "Failed");
}

format-lines_example :
    split 10 (format two_lines) ≡ indent_lines (lines_with (text_of two_lines) two_lines.exc_text)
format-lines_example = format-lines two_lines

two_printed : format two_lines ≡ (
    codes "[I 200101 00:00:00.007       client:   42] fe80::1:48898 <<<--- 46B (1 of 2) read"
    ++ (10 ∷ codes "    Failed"))
unfolding format formatted plain parts decimal indent
two_printed = refl
