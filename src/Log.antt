-- ===== src/Log.antt =====
-- src/log.h, class Logger, and src/log.cc: a logger is on or off. The stream is the text written so
-- far. The other modules leave out what they log, since the logger's state is read by nothing else.
use total_order_multicast.Common.{ℕ, Bool, false, List, [], ◌++◌, if◌then◌else◌}

pub record Logger : Type 0 where
  pub output : List ℕ
  pub enabled : Bool

abbrev pub new_logger : Logger
new_logger = record { output = []; enabled = false }

unfoldable pub enable : Bool → Logger → Logger
enable on logger = record logger { enabled = on }

-- `<<` with the text of a value.
unfoldable pub write : Logger → List ℕ → Logger
write logger text =
    if logger.enabled then record logger { output = logger.output ++ text } else logger
