-- ===== src/Common/Dates.antt =====
-- Instants are milliseconds since the epoch, as `Date.getTime` gives them.
use Prim.Native.Nat.{ℕ}

abbrev pub Date : Type 0
Date = ℕ
