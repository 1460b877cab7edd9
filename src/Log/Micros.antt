-- ===== src/Log/Micros.antt =====
-- The microseconds in the lines of `m_log`, src/m_log.c.
use ming.Log.{
  Letter, Letter, fl_line, fl_func, fl_file, fl_tag, fl_level, long_micros_field, micros_field,
  fl_time, fl_date, has_flag, Piece, Log,
}
use ming.Base.{◌||◌, ◌≡◌, ℕ, true, [], ◌∷◌, false, List, Bool}

-- Two words of flags that differ at most in `M_LOG_FL_USEC`, with the date or the time.
pub record SameButUsec (v w : ℕ) : Type 0 where
  pub same_level : has_flag w fl_level ≡ has_flag v fl_level
  pub same_tag : has_flag w fl_tag ≡ has_flag v fl_tag
  pub same_file : has_flag w fl_file ≡ has_flag v fl_file
  pub same_func : has_flag w fl_func ≡ has_flag v fl_func
  pub same_line : has_flag w fl_line ≡ has_flag v fl_line
  pub same_date : has_flag w fl_date ≡ has_flag v fl_date
  pub same_time : has_flag w fl_time ≡ has_flag v fl_time
  pub dated : has_flag v fl_date || has_flag v fl_time ≡ true

abbrev pub is_micros : Piece → Bool
is_micros micros_field = true
is_micros long_micros_field = true
is_micros _ = false

-- Whether microseconds are among the pieces of a line.
abbrev pub shows_micros : List Piece → Bool
shows_micros [] = false
shows_micros (p ∷ ps) = is_micros p || shows_micros ps
