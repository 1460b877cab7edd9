-- ===== src/Log.antt =====
-- src/m_log.c: the level and the pattern of the log, and the line that a message becomes. What is
-- written is a list of pieces, each a fixed string or a field with its format.
pub mod Line
pub mod Micros
use ming.Base.{
  ◌+◌, ◌==◌, ◌∷◌, suc, [], pos, pure, none, negsuc, ltb, ◌++◌, false, true, ◌%◌, ◌||◌, zero, ◌>>=◌,
  ◌>>◌, some, if◌then◌else◌, List, ◌/◌, Run, Bool, Option, ℕ,
}

-- The characters `D`, `I`, `W`, `E` and `F`, for the level of a message.
pub data Letter : Type 0 where
  debug_d info_i warning_w error_e fatal_f : Letter

-- The fields of a line, in the format that the code gives them.
pub data Piece : Type 0 where
  letter : Letter → Piece
  slash colon space end_of_header newline : Piece
  tag_field file_field func_field line_field message : Piece
  date_field time_field micros_field long_micros_field : Piece

-- `log_fp`: the standard output, or the file that `M_LOG_FILE` names.
pub data Sink : Type 0 where
  standard_output log_file closed_file : Sink

pub record Log : Type 0 where
  pub sink : Sink
  pub level : ℕ
  pub flags : ℕ  -- uint32_t
  pub out : List Piece

-- `M_LogLevel`
abbrev pub level_all : ℕ
level_all = 0

abbrev pub level_debug : ℕ
level_debug = 1

abbrev pub level_info : ℕ
level_info = 2

abbrev pub level_warning : ℕ
level_warning = 3

abbrev pub level_error : ℕ
level_error = 4

abbrev pub level_fatal : ℕ
level_fatal = 5

abbrev pub level_none : ℕ
level_none = 6

abbrev pub fl_tag : ℕ
fl_tag = 1

abbrev pub fl_file : ℕ
fl_file = 2

abbrev pub fl_func : ℕ
fl_func = 4

abbrev pub fl_line : ℕ
fl_line = 8

abbrev pub fl_date : ℕ
fl_date = 16

abbrev pub fl_time : ℕ
fl_time = 32

abbrev pub fl_usec : ℕ
fl_usec = 64

abbrev pub fl_level : ℕ
fl_level = 128

abbrev pub fl_all : ℕ
fl_all = 0xffffffff

-- `flags & bit` is not 0, and `flags | bit`.
unfoldable pub has_flag : ℕ → ℕ → Bool
has_flag flags bit = flags / bit % 2 == 1

abbrev pub or_flag : Bool → ℕ → ℕ → ℕ
or_flag test bit flags =
    if test then (if flags / bit % 2 == 1 then flags else flags + bit) else flags

-- The characters of `M_LOG_PATTERN`; `letter_f` is `f`, `upper_f` is `F`.
pub data Pattern : Type 0 where
  upper_t upper_l upper_f letter_f letter_l letter_d letter_t letter_u : Pattern

-- What the environment says: whether `M_LOG_FILE` is set and opens, for `M_LOG_LEVEL` whether it is
-- the name of a level (given by its number), and for `M_LOG_PATTERN` whether it has a character.
pub record Environment : Type 0 where
  pub file : Option Bool
  pub level_name : Option (ℕ → Bool)
  pub pattern : Option (Pattern → Bool)

unfoldable pub startup_level : Option (ℕ → Bool) → ℕ
startup_level none = level_none
startup_level (some is_name) =
    if is_name level_all
    then level_all
    else if is_name level_debug
    then level_debug
    else if is_name level_info
    then level_info
    else if is_name level_warning
    then level_warning
    else if is_name level_error
    then level_error
    else if is_name level_fatal
    then level_fatal
    else if is_name level_none
    then level_none
    else level_all

unfoldable pub startup_flags : Option (Pattern → Bool) → ℕ
startup_flags none = fl_all
startup_flags (some has) = or_flag (has letter_u) fl_usec (
    or_flag (has letter_t) fl_time (
      or_flag (has letter_d) fl_date (
        or_flag (has letter_l) fl_line (
          or_flag (has letter_f) fl_func (
            or_flag (has upper_f) fl_file
              (or_flag (has upper_l) fl_level (or_flag (has upper_t) fl_tag 0)))))))

unfoldable pub startup_sink : Option Bool → Sink
startup_sink none = standard_output
startup_sink (some false) = standard_output
startup_sink (some true) = log_file

abbrev pub close_sink : Sink → Sink
close_sink standard_output = standard_output
close_sink log_file = closed_file
close_sink closed_file = closed_file

unfoldable pub log_startup : Environment → Run Log (Unit {0})
unfolding startup_level startup_flags startup_sink
log_startup env s = some (
  tt,
  record s {
    sink = startup_sink env.file;
    level = startup_level env.level_name;
    flags = startup_flags env.pattern;
  },
)

-- `fclose` on a file of its own
unfoldable pub log_shutdown : Run Log (Unit {0})
log_shutdown s = some (tt, record s { sink = close_sink s.sink })

unfoldable pub print : Piece → Run Log (Unit {0})
print p s = some (tt, record s { out = s.out ++ p ∷ [] })

unfoldable pub when_flag : ℕ → Run Log Bool
unfolding has_flag
when_flag bit s = some (has_flag s.flags bit, s)

-- A field with the separator before it; the result is the new `sep`.
unfoldable pub field : ℕ → Piece → Piece → Bool → Run Log Bool
unfolding print when_flag
field bit separator piece sep = do
  b ← when_flag bit
  if b then (do if sep then print separator else pure tt; print piece; pure true) else pure sep

-- The date, the time and the fraction of a second.
unfoldable pub time_fields : Bool → Run Log Bool
unfolding print when_flag
time_fields sep = do
  date ← when_flag fl_date
  time ← when_flag fl_time
  usec ← when_flag fl_usec
  if date || (time || usec)
      then (do
        if sep then print space else pure tt
        if date then print date_field else pure tt
        if time then (do if date then print space else pure tt; print time_field) else pure tt
        if time
            then print micros_field
            else (do if date then print space else pure tt; print long_micros_field)
        pure true)
      else pure sep

-- The `switch` on the level; `M_LOG_LEVEL_ALL` and `M_LOG_LEVEL_NONE` have no case of their own.
unfoldable pub level_letter : ℕ → Letter
level_letter level =
    if level == level_debug
    then debug_d
    else if level == level_warning
    then warning_w
    else if level == level_error
    then error_e
    else if level == level_fatal
    then fatal_f
    else info_i

-- The level is the first field, and no separator stands before it.
unfoldable pub log_line : ℕ → Run Log (Unit {0})
unfolding print field time_fields level_letter
log_line level = do
  a ← field fl_level colon (letter (level_letter level)) false
  b ← field fl_tag slash tag_field a
  c ← field fl_file colon file_field b
  d ← field fl_func space func_field c
  e ← field fl_line space line_field d
  f ← time_fields e
  if f then print end_of_header else pure tt
  print message
  print newline

unfoldable pub log : ℕ → Run Log (Unit {0})
unfolding log_line
log level s = if ltb level s.level then some (tt, s) else log_line level s
