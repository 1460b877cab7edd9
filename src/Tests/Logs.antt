-- ===== src/Tests/Logs.antt =====
-- The log at concrete levels and flags.
use ming.Log.Line.{log-line_of, line_of}
use ming.Log.{level_info, standard_output, Environment, log, Log}
use ming.Base.{ltb, if◌then◌else◌, [], ◌++◌, some, none, ◌≡◌}

abbrev dated : Log
dated = record { sink = standard_output; level = level_info; flags = 16; out = [] }

log-line_of_example :
    log 4 dated
    ≡ some (
      tt,
      record dated { out = dated.out ++ (if ltb 4 dated.level then [] else line_of 4 dated.flags) },
    )
log-line_of_example = log-line_of 4 dated

abbrev bare : Environment
bare = record { file = none; level_name = none; pattern = none }
