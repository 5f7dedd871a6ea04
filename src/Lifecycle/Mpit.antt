-- ===== src/Lifecycle/Mpit.antt =====
-- The tools interface: src/mpit.c and its helpers in src/core.c, built for MPI 3.0 and later.
use uni_mpi.Base.{none, some, if◌then◌else◌, ◌==◌}
use uni_mpi.Base.Int.{ℤ, pos, int_eq, increment, decrement}
use uni_mpi.Codes.{ok}
use uni_mpi.Platform.{Env}
use uni_mpi.Lifecycle.State.{Core, Outcome, fault, done, unload_if_unused}
use uni_mpi.Lifecycle.Loading.{unimpi_ensure_loaded}

unfoldable pub unimpi_mt_ref_acquire : Core → Core
unimpi_mt_ref_acquire s = record s { refcount = increment s.refcount }

unfoldable pub unimpi_mt_ref_release : Core → Core
unfolding unload_if_unused
unimpi_mt_ref_release s = unload_if_unused (record s { refcount = decrement s.refcount })

unfoldable pub unimpi_mt_set_inited : ℤ → Core → Core
unimpi_mt_set_inited inited s = record s { mpit_inited = inited }

unfoldable pub unimpi_mpit_init_thread : Env → ℤ → Core → Outcome
unfolding unimpi_mt_ref_acquire unimpi_mt_set_inited
unimpi_mpit_init_thread e required s =
    let (rc, s1) = unimpi_ensure_loaded e s in
    let s2 = unimpi_mt_set_inited (pos 1) (unimpi_mt_ref_acquire s1) in
    let t_init_thread = s2.vt.unimpi_mt "t_init_thread" in
    let (code, provided) = e.call_t_init_thread t_init_thread required in
    if int_eq rc ok
    then (if t_init_thread == 0 then fault else done code (some provided) s2)
    else done rc none s1

unfoldable pub unimpi_mpit_finalize : Env → Core → Outcome
unfolding unimpi_mt_ref_release unimpi_mt_set_inited
unimpi_mpit_finalize e s =
    let t_finalize = s.vt.unimpi_mt "t_finalize" in
    if t_finalize == 0
    then fault
    else done (e.call_t_finalize t_finalize) none
        (unimpi_mt_ref_release (unimpi_mt_set_inited (pos 0) s))
