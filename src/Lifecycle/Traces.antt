-- ===== src/Lifecycle/Traces.antt =====
-- The states that sequences of calls reach, and what holds in all of them.
use uni_mpi.Base.{ℕ, suc, Bool, true, Option, if◌then◌else◌, ◌≡◌}
use uni_mpi.Base.Text.{Text}
use uni_mpi.Base.Int.{ℤ, int_eq}
use uni_mpi.Codes.{ok}
use uni_mpi.Platform.{Env}
use uni_mpi.Lifecycle.State.{Core, done, start}
use uni_mpi.Lifecycle.Loading.{unimpi_ensure_loaded}
use uni_mpi.Lifecycle.Init.{unimpi_init, unimpi_init_thread, unimpi_init_with, unimpi_finalize}
use uni_mpi.Lifecycle.Mpit.{unimpi_mpit_init_thread, unimpi_mpit_finalize}
use uni_mpi.Lifecycle.Invariant.{Inv, IsBalanced, holders, settled, start-Inv}
use uni_mpi.Lifecycle.Starts.{unimpi_init-Keeps, unimpi_init_thread-Keeps, unimpi_init_with-Keeps}
use uni_mpi.Lifecycle.Ends.{
  unimpi_finalize-Keeps, unimpi_mpit_init_thread-Keeps, unimpi_mpit_finalize-Keeps,
}

-- `Reach t s`: calls that all return lead from the beginning to `s`, with `t` references of the
-- tools interface not yet given back. The environment may be another one at every call.
-- `unimpi_mpit_finalize` is called only where such a reference is held, and `unimpi_init_with` only
-- where none is.
pub data Reach : ℕ → Core → Type 0 where
  begin : Reach 0 start
  by_init :
      {t : ℕ} {s s' : Core} {code : ℤ} {provided : Option ℤ} (e : Env)
      → unimpi_init e s ≡ done code provided s'
      → Reach t s
      → Reach t s'
  by_init_thread :
      {t : ℕ} {s s' : Core} {code : ℤ} {provided : Option ℤ} (e : Env) (required : ℤ)
      (has_provided : Bool)
      → unimpi_init_thread e required has_provided s ≡ done code provided s'
      → Reach t s
      → Reach t s'
  by_init_with :
      {s s' : Core} {code : ℤ} {provided : Option ℤ} (e : Env) (backend_name : Option Text)
      → unimpi_init_with e backend_name s ≡ done code provided s'
      → Reach 0 s
      → Reach 0 s'
  by_finalize :
      {t : ℕ} {s s' : Core} {code : ℤ} {provided : Option ℤ} (e : Env)
      → unimpi_finalize e s ≡ done code provided s'
      → Reach t s
      → Reach t s'
  by_mpit_init_thread :
      {t : ℕ} {s s' : Core} {code : ℤ} {provided : Option ℤ} (e : Env) (required : ℤ)
      → unimpi_mpit_init_thread e required s ≡ done code provided s'
      → Reach t s
      → Reach (if int_eq (unimpi_ensure_loaded e s).0 ok then suc t else t) s'
  by_mpit_finalize :
      {t : ℕ} {s s' : Core} {code : ℤ} {provided : Option ℤ} (e : Env)
      → unimpi_mpit_finalize e s ≡ done code provided s'
      → Reach (suc t) s
      → Reach t s'

pub Reach-Inv : {t : ℕ} {s : Core} → Reach t s → Inv t s
Reach-Inv begin = start-Inv
Reach-Inv (by_init {t} {s} e h r) = rw h at (unimpi_init-Keeps e t s (Reach-Inv r))
Reach-Inv (by_init_thread {t} {s} e required has_provided h r) =
    rw h at (unimpi_init_thread-Keeps e required has_provided t s (Reach-Inv r))
Reach-Inv (by_init_with {s} e backend_name h r) =
    rw h at (unimpi_init_with-Keeps e backend_name s (Reach-Inv r))
Reach-Inv (by_finalize {t} {s} e h r) = rw h at (unimpi_finalize-Keeps e t s (Reach-Inv r))
Reach-Inv (by_mpit_init_thread {t} {s} e required h r) =
    rw h at (unimpi_mpit_init_thread-Keeps e required t s (Reach-Inv r))
Reach-Inv (by_mpit_finalize {t} {s} e h r) =
    rw h at (unimpi_mpit_finalize-Keeps e t s (Reach-Inv r))

-- In every state that a sequence of returning calls leads to from the beginning, where
-- `unimpi_mpit_finalize` is called only with a reference of the tools interface held and
-- `unimpi_init_with` only with none, the reference count is the number of references held, those of
-- the tools interface and one for an active MPI. With none held no library is open and the handle is NULL;
-- with any, exactly one library is open, once, and the handle is it. No call is left half done.
pub Reach-IsBalanced :
    {t : ℕ} {s : Core} → Reach t s → IsBalanced (holders s.state t) s × (settled s.state ≡ true)
Reach-IsBalanced r = let i = Reach-Inv r in (i.balanced, i.is_settled)
