-- ===== src/Constants/AdsError.antt =====
-- `AdsError` of ads_async/constants.py: the members that the code names.
use ads_async.Prelude.{ℕ}

abbrev pub noerr : ℕ
noerr = 0

abbrev pub device_error : ℕ
device_error = 0x0700

abbrev pub device_invalidaccess : ℕ
device_invalidaccess = 0x0704

abbrev pub device_symbolnotfound : ℕ
device_symbolnotfound = 0x0710

abbrev pub client_invalidparm : ℕ
client_invalidparm = 0x0741
