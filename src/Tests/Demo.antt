-- ===== src/Tests/Demo.antt =====
-- A machine with libraries that export every symbol, but for those that tell implementations apart.
use uni_mpi.Base.{
  suc, ◌+◌, Bool, true, none, [], ◌∷◌, if◌then◌else◌, ◌||◌, refl, arith, length, inl,
}
use uni_mpi.Base.Text.{Text, codes, text_eq}
use uni_mpi.Base.Int.{pos}
use uni_mpi.Codes.{mpich, thread_single, thread_multiple}
use uni_mpi.Platform.{Env, linux}
use uni_mpi.Vtable.{Vtable}
use uni_mpi.Lifecycle.State.{finalized, Core, never, active, opened}
use uni_mpi.Lifecycle.Invariant.{Inv}

-- The symbols that Open MPI and Intel MPI, and MPICH, are told by.
abbrev is_foreign : Text → Bool
is_foreign s =
    text_eq s (codes "ompi_mpi_comm_world") || text_eq s (codes "__I_MPI___cpu_core_type")

-- Linux with MPICH, built for MPI 3.0; every call of the library succeeds.
abbrev pub mpich_linux_env : Env
mpich_linux_env = record {
  os = linux;
  target = record { version = 3; subversion = 0 };
  getenv = λ _. none;
  dlopen = length;
  dlsym = λ h s. if is_foreign s then 0 else suc (length s);
  address = λ _. 9;
  load_int = λ _. pos 4;
  load_pointer = λ p. p + 100;
  call_init = λ _. pos 0;
  call_init_thread = λ _ required. (pos 0, required);
  call_finalize = λ _. pos 0;
  call_t_init_thread = λ _ required. (pos 0, required);
  call_t_finalize = λ _. pos 0;
}

-- The same with Open MPI.
abbrev pub openmpi_linux_env : Env
openmpi_linux_env = record mpich_linux_env { dlsym = λ h s. suc (length s) }

-- MPI_Init fails.
abbrev pub failing_env : Env
failing_env = record mpich_linux_env { call_init = λ _. pos 15 }

abbrev pub full_table : Vtable
full_table = record {
  unimpi = λ _. 50;
  unimpi_mt = λ _. 60;
  natives = λ _. 70;
  globals = λ _. pos 0;
  backend_type = mpich;
  backend_handle = 12;
}

-- The tools interface holds one reference.
abbrev pub with_tools : Core
with_tools = record {
  state = never;
  identity = record { backend_type = mpich; backend_name = none; library_path = none };
  handle = 12;
  refcount = pos 1;
  mpit_inited = pos 1;
  backend_loaded = true;
  thread_level = thread_single;
  vt = full_table;
  calls = opened 12 ∷ [];
}

pub with_tools-Inv : Inv 1 with_tools
with_tools-Inv = record {
  balanced = (refl, refl, (λ h. ground arith), refl);
  is_settled = refl;
  filled = λ _. inl (λ f r h. ground arith);
}

-- The tools interface holds one reference, and MPI is active.
abbrev pub in_use : Core
in_use = record with_tools { state = active; refcount = pos 2; thread_level = thread_multiple }

pub in_use-Inv : Inv 1 in_use
in_use-Inv = record {
  balanced = (refl, refl, (λ h. ground arith), refl);
  is_settled = refl;
  filled = λ _. inl (λ f r h. ground arith);
}

-- MPI has been finalized, and the tools interface holds one reference.
abbrev pub after_use : Core
after_use = record with_tools { state = finalized }

pub after_use-Inv : Inv 1 after_use
after_use-Inv = record {
  balanced = (refl, refl, (λ h. ground arith), refl);
  is_settled = refl;
  filled = λ _. inl (λ f r h. ground arith);
}
