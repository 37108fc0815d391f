-- ===== src/Constants/IndexGroup.antt =====
-- `AdsIndexGroup` of ads_async/constants.py: the members that the code names.
use ads_async.Prelude.{ℕ}

abbrev pub sym_hndbyname : ℕ
sym_hndbyname = 0xF003

abbrev pub sym_valbyname : ℕ
sym_valbyname = 0xF004

abbrev pub sym_valbyhnd : ℕ
sym_valbyhnd = 0xF005

abbrev pub sym_releasehnd : ℕ
sym_releasehnd = 0xF006

abbrev pub sym_infobynameex : ℕ
sym_infobynameex = 0xF009

abbrev pub sumup_read : ℕ
sumup_read = 0xF080

abbrev pub ioimage_rwib : ℕ
ioimage_rwib = 0xF020

abbrev pub ioimage_rwob : ℕ
ioimage_rwob = 0xF030

abbrev pub plc_memory_area : ℕ
plc_memory_area = 0x4020

abbrev pub plc_data_area : ℕ
plc_data_area = 0x4040
