-- ===== src/Log/Line.antt =====
-- What `m_log` writes.
use mathlib.Core.List.{append_assoc, append-nil}
use ming.Log.{
  fatal_f, error_e, warning_w, debug_d, info_i, Letter, Letter, level_letter, level_none,
  Environment, startup_level, log_startup, line_field, newline, func_field, fl_line, message,
  file_field, colon, fl_func, tag_field, fl_file, end_of_header, slash, fl_tag, fl_level, log_line,
  log, letter, long_micros_field, fl_usec, micros_field, fl_time, time_field, fl_date, space,
  has_flag, date_field, when_flag, print, Piece, field, Log, time_fields,
}
use ming.Base.{
  zero, suc, ◌<◌, none, ap, ◌∙◌, inr, inl, ◌>>◌, Bool-cases, pure, ltb, if◌then◌else◌, refl, arith,
  ◌||◌, ◌≡◌, ℕ, some, true, [], ◌∷◌, ◌++◌, false, List, Bool,
}

-- A line in words: the fields that the pattern asks for, each but the first with its separator
-- before it.
abbrev pub separated : Bool → Piece → List Piece → List Piece
separated true separator ps = separator ∷ ps
separated false separator ps = ps

abbrev pub shown : Bool → Bool → Piece → List Piece → List Piece
shown true sep separator ps = separated sep separator ps
shown false sep separator ps = []

-- The date and the time; the microseconds stand after the time, or alone.
abbrev pub time_pieces : Bool → Bool → List Piece
time_pieces true true = date_field ∷ space ∷ time_field ∷ micros_field ∷ []
time_pieces true false = date_field ∷ space ∷ long_micros_field ∷ []
time_pieces false true = time_field ∷ micros_field ∷ []
time_pieces false false = long_micros_field ∷ []

-- The letters of the levels: all, debug, information, warning, error, fatal and none.
abbrev pub letter_of : ℕ → Letter
letter_of zero = info_i
letter_of (suc zero) = debug_d
letter_of (suc (suc zero)) = info_i
letter_of (suc (suc (suc zero))) = warning_w
letter_of (suc (suc (suc (suc zero)))) = error_e
letter_of (suc (suc (suc (suc (suc zero))))) = fatal_f
letter_of (suc (suc (suc (suc (suc (suc n)))))) = info_i

level_letter-letter_of : (level : ℕ) → level_letter level ≡ letter_of level
unfolding level_letter
level_letter-letter_of zero = refl
level_letter-letter_of (suc zero) = refl
level_letter-letter_of (suc (suc zero)) = refl
level_letter-letter_of (suc (suc (suc zero))) = refl
level_letter-letter_of (suc (suc (suc (suc zero)))) = refl
level_letter-letter_of (suc (suc (suc (suc (suc zero))))) = refl
level_letter-letter_of (suc (suc (suc (suc (suc (suc n)))))) = ground arith

abbrev added : Log → List Piece → Log
added s ps = record s { out = s.out ++ ps }

field-added :
    (bit : ℕ) (separator piece : Piece) (sep b : Bool) (s : Log)
    → has_flag s.flags bit ≡ b
    → field bit separator piece sep s
      ≡ some (b || sep, added s (shown b sep separator (piece ∷ [])))
unfolding field print when_flag has_flag
field-added bit separator piece true true s e =
    ground (arith, append_assoc s.out (separator ∷ []) (piece ∷ []))
field-added bit separator piece false true s e = ground arith
field-added bit separator piece sep false s e = ground (arith, append-nil s.out)

time_fields-added :
    (sep d t u : Bool) (s : Log)
    → has_flag s.flags fl_date ≡ d
    → has_flag s.flags fl_time ≡ t
    → has_flag s.flags fl_usec ≡ u
    → time_fields sep s
      ≡ some ((d || (t || u)) || sep, added s (shown (d || (t || u)) sep space (time_pieces d t)))
unfolding time_fields print when_flag has_flag
time_fields-added sep false false false s ed et eu = ground (arith, append-nil s.out)
time_fields-added true true true u s ed et eu = simp (ed, et, append_assoc) refl
time_fields-added true true false u s ed et eu = simp (ed, et, eu, append_assoc) refl
time_fields-added true false true u s ed et eu = simp (ed, et, eu, append_assoc) refl
time_fields-added true false false true s ed et eu = simp (ed, et, eu, append_assoc) refl
time_fields-added false true true u s ed et eu = simp (ed, et, eu, append_assoc) refl
time_fields-added false true false u s ed et eu = simp (ed, et, eu, append_assoc) refl
time_fields-added false false true u s ed et eu = simp (ed, et, eu, append_assoc) refl
time_fields-added false false false true s ed et eu = simp (ed, et, eu) refl

-- The whole line, from the flags: level, tag, file, function, line, date, time, microseconds.
abbrev pub line_pieces : Letter → Bool → Bool → Bool → Bool → Bool → Bool → Bool → Bool → List Piece
line_pieces i l g f c n d t u =
    let any = d || (t || u) in
    let before_time = n || (c || (f || (g || (l || false)))) in
    shown l false colon (letter i ∷ [])
    ++ (shown g (l || false) slash (tag_field ∷ [])
        ++ (shown f (g || (l || false)) colon (file_field ∷ [])
            ++ (shown c (f || (g || (l || false))) space (func_field ∷ [])
                ++ (shown n (c || (f || (g || (l || false)))) space (line_field ∷ [])
                    ++ (shown any before_time space (time_pieces d t)
                        ++ ((if any || before_time then end_of_header ∷ [] else [])
                            ++ message ∷ newline ∷ []))))))

line_end :
    (b : Bool) (s : Log)
    → ((if b then print end_of_header else pure tt) >> (print message >> print newline)) s
      ≡ some (tt, added s ((if b then end_of_header ∷ [] else []) ++ message ∷ newline ∷ []))
unfolding print
line_end true s = simp append_assoc refl
line_end false s = simp append_assoc refl

-- A line of a level and of flags, as `line_pieces` says it.
abbrev pub line_of : ℕ → ℕ → List Piece
line_of level w =
    line_pieces (letter_of level) (has_flag w fl_level) (has_flag w fl_tag) (has_flag w fl_file)
      (has_flag w fl_func) (has_flag w fl_line) (has_flag w fl_date) (has_flag w fl_time)
      (has_flag w fl_usec)

log_line-added :
    (level : ℕ) (s : Log) → log_line level s ≡ some (tt, added s (line_of level s.flags))
unfolding log_line
log_line-added level s =
    let i = letter_of level in
    let w = s.flags in
    let l = has_flag w fl_level in
    let g = has_flag w fl_tag in
    let f = has_flag w fl_file in
    let c = has_flag w fl_func in
    let n = has_flag w fl_line in
    let s1 = added s (shown l false colon (letter i ∷ [])) in
    let b1 = l || false in
    let s2 = added s1 (shown g b1 slash (tag_field ∷ [])) in
    let b2 = g || b1 in
    let s3 = added s2 (shown f b2 colon (file_field ∷ [])) in
    let b3 = f || b2 in
    let s4 = added s3 (shown c b3 space (func_field ∷ [])) in
    let b4 = c || b3 in
    let s5 = added s4 (shown n b4 space (line_field ∷ [])) in
    let b5 = n || b4 in
    let any = has_flag w fl_date || (has_flag w fl_time || has_flag w fl_usec) in
    let s6 =
      added s5 (shown any b5 space (time_pieces (has_flag w fl_date) (has_flag w fl_time))) in
    rw
      (
        level_letter-letter_of level,
        field-added fl_level colon (letter i) false l s refl,
        field-added fl_tag slash tag_field b1 g s1 refl,
        field-added fl_file colon file_field b2 f s2 refl,
        field-added fl_func space func_field b3 c s3 refl,
        field-added fl_line space line_field b4 n s4 refl,
        time_fields-added b5 (has_flag w fl_date) (has_flag w fl_time) (has_flag w fl_usec) s5 refl
            refl refl,
      )
      (line_end (any || b5) s6 ∙ simp append_assoc refl)

-- `m_log` of a message below the level writes nothing; any other message becomes one line: the
-- fields that the flags ask for, the letter of the message's level the first of them, each other one
-- after its separator, a colon if there is any, the message and the end of the line. The level, the flags and the sink stay as they are.
pub log-line_of :
    (level : ℕ) (s : Log)
    → log level s
      ≡ some (
        tt,
        record s { out = s.out ++ (if ltb level s.level then [] else line_of level s.flags) },
      )
unfolding log
log-line_of level s = elim (Bool-cases (ltb level s.level)) [
  | inl b ↦ simp (b, append-nil) refl
  | inr b ↦ rw b (log_line-added level s)
]

-- If the environment names no level, the log is silent after `m_log_startup`: a message of any level
-- writes nothing.
pub log_startup-silent :
    (env : Environment) (level : ℕ) (s : Log)
    → env.level_name ≡ none
    → level < level_none
    → (log_startup env >> log level) s ≡ log_startup env s
unfolding log_startup log startup_level
log_startup-silent env level s e h = ground (arith, e, ap startup_level e)
