-- ===== src/Errors/Debug.antt =====
-- The debug messages of src/error.c: which are printed. `atoi` is a parameter, and `g_debug_level`
-- an argument.
use uni_mpi.Base.{Bool, String, Option, none, some, not, if◌then◌else◌}
use uni_mpi.Base.Int.{ℤ, pos, int_eq, int_lt}
use uni_mpi.Base.Text.{Text}
use uni_mpi.Platform.{Env}

abbrev pub dbg_error : ℤ
dbg_error = pos 1

abbrev pub dbg_warn : ℤ
dbg_warn = pos 2

abbrev pub dbg_info : ℤ
dbg_info = pos 3

abbrev pub dbg_debug : ℤ
dbg_debug = pos 4

abbrev pub dbg_trace : ℤ
dbg_trace = pos 5

unfoldable pub debug_level_str : ℤ → String
debug_level_str level =
    if int_eq level dbg_error
    then "ERROR"
    else if int_eq level dbg_warn
    then "WARN"
    else if int_eq level dbg_info
    then "INFO"
    else if int_eq level dbg_debug
    then "DEBUG"
    else if int_eq level dbg_trace
    then "TRACE"
    else "UNKNOWN"

-- UNIMPI_DEBUG, where it is set, takes the place of the level.
abbrev pub current_level : (Text → ℤ) → Env → ℤ → ℤ
current_level atoi e g_debug_level = elim (e.getenv "UNIMPI_DEBUG") [
  | none ↦ g_debug_level
  | some t ↦ atoi t
]

-- Whether the message is printed.
unfoldable pub unimpi_debug_print : (Text → ℤ) → Env → ℤ → Bool
unimpi_debug_print atoi e g_debug_level = not (int_lt (current_level atoi e g_debug_level) dbg_info)

-- The name of the level that the message is printed under, `none` where it is not printed.
unfoldable pub unimpi_debug_print_level : (Text → ℤ) → Env → ℤ → ℤ → Option String
unfolding debug_level_str
unimpi_debug_print_level atoi e g_debug_level level =
    if int_lt (current_level atoi e g_debug_level) level then none else some (debug_level_str level)

-- `g_debug_level` after the call, and what is answered.
unfoldable pub unimpi_set_debug_level : ℤ → ℤ → ℤ
unimpi_set_debug_level level g_debug_level = level

unfoldable pub unimpi_get_debug_level : ℤ → ℤ
unimpi_get_debug_level g_debug_level = g_debug_level
