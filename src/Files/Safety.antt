-- ===== src/Files/Safety.antt =====
-- LockFile of tew/api/kernel32_io.py and the locks of all paths.
use tew.State.{World}
use tew.State.Native.{Native}
use tew.Files.{lock_file}
use tew.Files.Keeps.{AllLocksOk, lock_file-Keeps}

module _ {N : Type 0} ⦃lib : Native N⦄ where
  -- LockFile, whether it grants the lock, refuses it, or raises, keeps the locked byte ranges of
  -- different handles on one path from overlapping.
  pub lock_file-AllLocksOk :
      (w : World N) → AllLocksOk (w.state) → AllLocksOk ((lock_file w).1.state)
  lock_file-AllLocksOk w v = lock_file-Keeps.at w v
