-- ===== src/Lifecycle/Query.antt =====
-- The calls of src/core.c that only read. A flag is `none` where nothing is written.
use uni_mpi.Base.{ℕ, Bool, true, false, Option, none, some, if◌then◌else◌}
use uni_mpi.Base.Text.{Text}
use uni_mpi.Base.Int.{ℤ}
use uni_mpi.Codes.{ok, err_invalid_argument}
use uni_mpi.Lifecycle.State.{State, active, finalizing, finalized, finalize_failed, Core}

abbrev was_initialized : State → Bool
was_initialized active = true
was_initialized finalizing = true
was_initialized finalized = true
was_initialized finalize_failed = true
was_initialized _ = false

abbrev is_finalized : State → Bool
is_finalized finalized = true
is_finalized _ = false

abbrev is_active : State → Bool
is_active active = true
is_active _ = false

-- `has_flag` says whether the `flag` argument is not NULL.
unfoldable pub unimpi_mpi_initialized : Bool → Core → ℤ × Option ℕ
unimpi_mpi_initialized has_flag s =
    if has_flag
    then (ok, some (if was_initialized s.state then 1 else 0))
    else (err_invalid_argument, none)

unfoldable pub unimpi_mpi_finalized : Bool → Core → ℤ × Option ℕ
unimpi_mpi_finalized has_flag s =
    if has_flag
    then (ok, some (if is_finalized s.state then 1 else 0))
    else (err_invalid_argument, none)

unfoldable pub unimpi_is_initialized : Core → ℕ
unimpi_is_initialized s = if is_active s.state then 1 else 0

unfoldable pub unimpi_get_backend_name : Core → Option Text
unimpi_get_backend_name s = s.identity.backend_name

unfoldable pub unimpi_get_library_path : Core → Option Text
unimpi_get_library_path s = s.identity.library_path

unfoldable pub unimpi_mt_initialized : Bool → Core → ℤ × Option ℤ
unimpi_mt_initialized has_flag s =
    if has_flag then (ok, some s.mpit_inited) else (err_invalid_argument, none)
