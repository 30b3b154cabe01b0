-- ===== src/Errors.antt =====
-- The error codes of jos/inc/error.h, and what a function that returns an int says with them.
use cs444_operating_systems.Base.{ℕ}

pub data Error : Type 0 where
  unspecified : Error
  bad_env : Error
  inval : Error
  no_mem : Error
  no_free_env : Error
  segfault : Error
  ipc_not_recv : Error
  eof : Error

-- `value n` is the int n, `error e` the int -e.
pub data Ret : Type 0 where
  value : ℕ → Ret
  error : Error → Ret
