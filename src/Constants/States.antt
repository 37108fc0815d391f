-- ===== src/Constants/States.antt =====
-- `AdsState` of ads_async/constants.py: the member that the server reports.
use ads_async.Prelude.{ℕ}

-- `AdsState.RUN`
abbrev pub run : ℕ
run = 5
