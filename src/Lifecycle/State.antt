-- ===== src/Lifecycle/State.antt =====
-- The static variables of src/core.c, and what a call gives back.
use uni_mpi.Base.{ℕ, Bool, false, Option, none, some, List, [], ◌∷◌, ◌==◌, if◌then◌else◌}
use uni_mpi.Base.Text.{Text}
use uni_mpi.Base.Int.{ℤ, pos, is_nonpos}
use uni_mpi.Codes.{
  Backend, unknown, backend_eq, ok, thread_single, err_already_initialized, err_finalized,
  err_invalid_state,
}
use uni_mpi.Vtable.{Vtable}
use uni_mpi.Globals.{initial_globals}
use uni_mpi.Loader.{BackendInfo, unimpi_backends}

-- `unimpi_state_t`.
pub data State : Type 0 where
  never initializing active init_failed finalizing finalized finalize_failed : State

-- `unimpi_backend_identity_t`.
pub record Identity : Type 0 where
  pub backend_type : Backend
  pub backend_name : Option Text
  pub library_path : Option Text

-- A call of the dynamic loader that changes which libraries are open.
pub data Call : Type 0 where
  opened : ℕ → Call
  closed : ℕ → Call

-- `vt` stands for the variables of src/vtable.c and src/backends, and `calls` is what has been
-- asked of the dynamic loader, the latest call first.
pub record Core : Type 0 where
  pub state : State
  pub identity : Identity
  pub handle : ℕ
  pub refcount : ℤ
  pub mpit_inited : ℤ
  pub backend_loaded : Bool
  pub thread_level : ℤ
  pub vt : Vtable
  pub calls : List Call

-- A call through a NULL function pointer, or the code returned, what was written through
-- `provided`, and the new state.
pub data Outcome : Type 0 where
  fault : Outcome
  done : ℤ → Option ℤ → Core → Outcome

abbrev pub no_identity : Identity
no_identity = record { backend_type = unknown; backend_name = none; library_path = none }

-- The state before the first call.
unfoldable pub start : Core
unfolding initial_globals
start = record {
  state = never;
  identity = no_identity;
  handle = 0;
  refcount = pos 0;
  mpit_inited = pos 0;
  backend_loaded = false;
  thread_level = thread_single;
  vt = record {
    unimpi = λ _. 0;
    unimpi_mt = λ _. 0;
    natives = λ _. 0;
    globals = initial_globals;
    backend_type = unknown;
    backend_handle = 0;
  };
  calls = [];
}

unfoldable pub clear_backend_identity : Core → Core
clear_backend_identity s = record s { identity = no_identity }

unfoldable pub name_of_type : Backend → List BackendInfo → Option Text
name_of_type t [] = none
name_of_type t (b ∷ bs) = if backend_eq b.type t then some b.name else name_of_type t bs

-- The copies are taken to succeed: `malloc` of a few bytes is not modelled.
unfoldable pub save_backend_identity : Backend → Option Text → Core → Core
unfolding name_of_type
save_backend_identity t path s = record s {
  identity = record {
    backend_type = t;
    backend_name = name_of_type t unimpi_backends;
    library_path = path;
  };
}

unfoldable pub check_can_initialize : State → ℤ
check_can_initialize never = ok
check_can_initialize initializing = err_already_initialized
check_can_initialize active = err_already_initialized
check_can_initialize init_failed = ok
check_can_initialize finalized = err_finalized
check_can_initialize finalizing = err_invalid_state
check_can_initialize finalize_failed = err_invalid_state

-- `unimpi_loader_unload(g_handle); g_handle = NULL;`
unfoldable pub unload : Core → Core
unload s = record s { handle = 0; calls = closed s.handle ∷ s.calls }

-- `if (g_refcount <= 0 && g_handle) { unload; g_backend_loaded = 0; }`
unfoldable pub unload_if_unused : Core → Core
unfolding unload
unload_if_unused s =
    if is_nonpos s.refcount
    then (if s.handle == 0 then s else record (unload s) { backend_loaded = false })
    else s
