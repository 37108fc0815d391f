-- ===== src/Constants/Flag.antt =====
-- `AoEHeaderFlag` of ads_async/constants.py, an `IntFlag`, which accepts every combination of bits.
use ads_async.Prelude.{ℕ}

abbrev pub response : ℕ
response = 1

abbrev pub ads_command : ℕ
ads_command = 4
