-- ===== src/Vtable.antt =====
-- The function tables `unimpi` and `unimpi_mt`, the globals that a backend fills, and the
-- statements that the four `unimpi_vtable_init_*` functions of src/backends are made of.
pub mod Binding
use uni_mpi.Base.{ℕ, Bool, true, false, String, List, [], ◌∷◌, str_eq, ◌==◌, if◌then◌else◌}
use uni_mpi.Base.Int.{ℤ, pos}
use uni_mpi.Base.Text.{codes}
use uni_mpi.Codes.{Backend}
use uni_mpi.Platform.{Env, Target, at_least}

-- `unimpi` and `unimpi_mt` by field name, the `mpich_*`, `intelmpi_*` and `msmpi_*` pointers,
-- the `MPI_*` and `UNIMPI_*` variables, and the two static variables of src/vtable.c.
pub record Vtable : Type 0 where
  pub unimpi : String → ℕ
  pub unimpi_mt : String → ℕ
  pub natives : String → ℕ
  pub globals : String → ℤ
  pub backend_type : Backend
  pub backend_handle : ℕ

abbrev pub update {ℓ} : {A : Type ℓ} → (String → A) → String → A → String → A
update f s a t = if str_eq s t then a else f t

-- One statement of an init function, after its casts.
pub data Instr : Type 0 where
  -- `unimpi.field = dlsym(handle, symbol);`
  bind : String → String → Instr
  -- `unimpi_mt.field = dlsym(handle, symbol);`
  bind_mt : String → String → Instr
  -- `mpich_name = dlsym(handle, symbol);`
  native : String → String → Instr
  -- `unimpi.field = function;`
  wrap : String → String → Instr
  -- `if (mpich_name) unimpi.field = function;`
  wrap_if : String → String → String → Instr
  -- `if (unimpi.field == NULL) unimpi.field = function;`
  fallback : String → String → Instr
  -- `VARIABLE = constant;`
  assign : String → ℤ → Instr
  -- `VARIABLE = dlsym(handle, symbol);`
  resolve : String → String → Instr
  -- `dlsym(handle, symbol);` alone.
  ignore : String → Instr

-- The `#if UNIMPI_MPI_AT_LEAST` that a statement stands under. 3.1 also where the one for 3.1
-- stands inside the one for 3.0.
pub data Gate : Type 0 where
  base mpi_3_0 mpi_3_1 : Gate

unfoldable pub enabled : Target → Gate → Bool
unfolding at_least
enabled t base = true
enabled t mpi_3_0 = at_least t 3 0
enabled t mpi_3_1 = at_least t 3 1

abbrev pub Program : Type 0
Program = List (Gate × Instr)

unfoldable pub exec : Env → ℕ → Instr → Vtable → Vtable
exec e h (bind field symbol) v = record v {
  unimpi = update v.unimpi field (e.dlsym h (codes symbol));
}
exec e h (bind_mt field symbol) v = record v {
  unimpi_mt = update v.unimpi_mt field (e.dlsym h (codes symbol));
}
exec e h (native name symbol) v = record v {
  natives = update v.natives name (e.dlsym h (codes symbol));
}
exec e h (wrap field function) v = record v { unimpi = update v.unimpi field (e.address function) }
exec e h (wrap_if name field function) v =
    if v.natives name == 0
    then v
    else record v { unimpi = update v.unimpi field (e.address function) }
exec e h (fallback field function) v =
    if v.unimpi field == 0
    then record v { unimpi = update v.unimpi field (e.address function) }
    else v
exec e h (assign name value) v = record v { globals = update v.globals name value }
exec e h (resolve name symbol) v = record v {
  globals = update v.globals name (pos (e.dlsym h (codes symbol)));
}
exec e h (ignore symbol) v = v

-- The statements in order, without those that the target version leaves out.
unfoldable pub run : Env → ℕ → Program → Vtable → Vtable
run e h [] v = v
run e h ((gate, i) ∷ p) v = run e h p (if enabled e.target gate then exec e h i v else v)
