-- ===== src/Backends/Parity.antt =====
-- Each backend's init function against the declared fields of the two tables: every field is
-- bound, under its own gate, and to the symbol of its standard name.
use mathlib.Core.List.{Memᴰ}
use uni_mpi.Base.{
  ℕ, String, Bool, false, [], ◌∷◌, ◌++◌, List, str_eq, any, if◌then◌else◌, ◌≡◌, refl, arith, ap,
}
use uni_mpi.Base.Int.{int_eq_iff}
use uni_mpi.Codes.{ok}
use uni_mpi.Platform.{Env}
use uni_mpi.Vtable.{Vtable, Gate, run, enabled, exec}
use uni_mpi.Fields.{main_fields, mt_fields}
use uni_mpi.Vtable.Binding.{IsComplete, conforms, std_symbol, unimpi-two_parts, unimpi_mt-two_parts}
use uni_mpi.Backends.Openmpi.{
  openmpi_head, openmpi_tail, unimpi_vtable_init_openmpi, get_openmpi_comm_values,
  get_openmpi_datatype_values, get_openmpi_op_values,
}
use uni_mpi.Backends.Mpich.{mpich_head, mpich_tail, unimpi_vtable_init_mpich}
use uni_mpi.Backends.Intelmpi.{intelmpi_head, intelmpi_tail, unimpi_vtable_init_intelmpi}
use uni_mpi.Backends.Msmpi.{msmpi_program, unimpi_vtable_init_msmpi}

-- The status accessors and the address arithmetic may be functions of UniMPI with every library.
abbrev pub own_fields : List String
own_fields =
    "status_get_source" ∷ "status_get_tag" ∷ "status_get_error" ∷ "aint_add" ∷ "aint_diff" ∷ []

-- The fields that take the wrappers of *_wrappers.c, for an MPICH-derived library.
abbrev pub wrapper_fields : List String
wrapper_fields =
    "waitall" ∷ "testany" ∷ "testsome" ∷ "testall" ∷ "waitany" ∷ "waitsome" ∷ "startall"
    ∷ "alltoallw" ∷ "ialltoallw" ∷ "neighbor_alltoallv" ∷ "neighbor_alltoallw"
    ∷ "ineighbor_alltoallv" ∷ "ineighbor_alltoallw" ∷ "type_get_contents" ∷ "comm_spawn_multiple"
    ∷ "type_create_struct" ∷ "type_struct" ∷ []

abbrev pub legacy_local : String → Bool
legacy_local s = any (λ f. str_eq f s) (wrapper_fields ++ own_fields)

-- Open MPI's handles need no wrapper.
abbrev pub openmpi_local : String → Bool
openmpi_local s = any (λ f. str_eq f s) own_fields

openmpi_complete : IsComplete openmpi_local openmpi_head openmpi_tail main_fields mt_fields
unfolding openmpi_head openmpi_tail main_fields mt_fields conforms
openmpi_complete = (refl, refl, refl, refl)

mpich_complete : IsComplete legacy_local mpich_head mpich_tail main_fields mt_fields
unfolding mpich_head mpich_tail main_fields mt_fields conforms
mpich_complete = (refl, refl, refl, refl)

intelmpi_complete : IsComplete legacy_local intelmpi_head intelmpi_tail main_fields mt_fields
unfolding intelmpi_head intelmpi_tail main_fields mt_fields conforms
intelmpi_complete = (refl, refl, refl, refl)

msmpi_complete : IsComplete legacy_local [] msmpi_program main_fields mt_fields
unfolding msmpi_program main_fields mt_fields conforms
msmpi_complete = (refl, refl, refl, refl)

-- What the library exports is what a field of the tables holds, where the target declares it.
abbrev pub IsBound : Env → ℕ → Gate → String → ℕ → ℕ → Type 0
IsBound e h g f before after =
    after ≡ (if enabled e.target g then e.dlsym h (std_symbol f) else before)

-- After `unimpi_vtable_init_mpich` a field of `unimpi` that holds no function of UniMPI holds the
-- library's symbol of its standard name if the target version declares the field, and what it
-- held before if not; every field of `unimpi_mt` does so.
pub mpich-fields :
    (e : Env) (h : ℕ) (v : Vtable) (g g' : Gate) (f k : String)
    → Memᴰ (g, f) main_fields
    → legacy_local f ≡ false
    → Memᴰ (g', k) mt_fields
    → let v' = (unimpi_vtable_init_mpich e h v).1 in
      IsBound e h g f (v.unimpi f) (v'.unimpi f) × IsBound e h g' k (v.unimpi_mt k) (v'.unimpi_mt k)
unfolding unimpi_vtable_init_mpich
mpich-fields e h v g g' f k m l n = (
  unimpi-two_parts legacy_local mpich_head mpich_tail main_fields mt_fields e h v _ g f
      mpich_complete refl m l,
  unimpi_mt-two_parts legacy_local mpich_head mpich_tail main_fields mt_fields e h v _ g' k
      mpich_complete refl n,
)

-- After `unimpi_vtable_init_intelmpi` a field of `unimpi` that holds no function of UniMPI holds the
-- library's symbol of its standard name if the target version declares the field, and what it
-- held before if not; every field of `unimpi_mt` does so.
pub intelmpi-fields :
    (e : Env) (h : ℕ) (v : Vtable) (g g' : Gate) (f k : String)
    → Memᴰ (g, f) main_fields
    → legacy_local f ≡ false
    → Memᴰ (g', k) mt_fields
    → let v' = (unimpi_vtable_init_intelmpi e h v).1 in
      IsBound e h g f (v.unimpi f) (v'.unimpi f) × IsBound e h g' k (v.unimpi_mt k) (v'.unimpi_mt k)
unfolding unimpi_vtable_init_intelmpi
intelmpi-fields e h v g g' f k m l n = (
  unimpi-two_parts legacy_local intelmpi_head intelmpi_tail main_fields mt_fields e h v _ g f
      intelmpi_complete refl m l,
  unimpi_mt-two_parts legacy_local intelmpi_head intelmpi_tail main_fields mt_fields e h v _ g' k
      intelmpi_complete refl n,
)

-- After `unimpi_vtable_init_msmpi` a field of `unimpi` that holds no function of UniMPI holds the
-- library's symbol of its standard name if the target version declares the field, and what it
-- held before if not; every field of `unimpi_mt` does so.
pub msmpi-fields :
    (e : Env) (h : ℕ) (v : Vtable) (g g' : Gate) (f k : String)
    → Memᴰ (g, f) main_fields
    → legacy_local f ≡ false
    → Memᴰ (g', k) mt_fields
    → let v' = (unimpi_vtable_init_msmpi e h v).1 in
      IsBound e h g f (v.unimpi f) (v'.unimpi f) × IsBound e h g' k (v.unimpi_mt k) (v'.unimpi_mt k)
unfolding unimpi_vtable_init_msmpi run
msmpi-fields e h v g g' f k m l n = (
  unimpi-two_parts legacy_local [] msmpi_program main_fields mt_fields e h v _ g f msmpi_complete
      refl m l,
  unimpi_mt-two_parts legacy_local [] msmpi_program main_fields mt_fields e h v _ g' k
      msmpi_complete refl n,
)

-- Between the two parts only variables are set.
openmpi_between :
    (e : Env) (h : ℕ) (v : Vtable)
    → let v' =
        (get_openmpi_op_values e h
          (get_openmpi_datatype_values e h (get_openmpi_comm_values e h v).1).1).1 in
      (v'.unimpi ≡ v.unimpi) × (v'.unimpi_mt ≡ v.unimpi_mt)
unfolding get_openmpi_op_values get_openmpi_datatype_values get_openmpi_comm_values run enabled exec
openmpi_between e h v = (ground arith, ground arith)

pub openmpi_ok :
    (e : Env) (h : ℕ) (v : Vtable)
    → (unimpi_vtable_init_openmpi e h v).0 ≡ ok
    → (unimpi_vtable_init_openmpi e h v).1
      ≡ run e h openmpi_tail
          (get_openmpi_op_values e h
            (get_openmpi_datatype_values e h
              (get_openmpi_comm_values e h (run e h openmpi_head v)).1).1).1
unfolding unimpi_vtable_init_openmpi
openmpi_ok e h v k =
    let comm = get_openmpi_comm_values e h (run e h openmpi_head v) in
    let datatype = get_openmpi_datatype_values e h comm.1 in
    let op = get_openmpi_op_values e h datatype.1 in
    ground (arith, int_eq_iff comm.0 ok, int_eq_iff datatype.0 ok, int_eq_iff op.0 ok)

-- After `unimpi_vtable_init_openmpi` has returned UNIMPI_OK a field of `unimpi` that holds no
-- function of UniMPI holds the library's symbol of its standard name if the target version
-- declares the field, and what it held before if not; every field of `unimpi_mt` does so.
pub openmpi-fields :
    (e : Env) (h : ℕ) (v : Vtable) (g g' : Gate) (f k : String)
    → (unimpi_vtable_init_openmpi e h v).0 ≡ ok
    → Memᴰ (g, f) main_fields
    → openmpi_local f ≡ false
    → Memᴰ (g', k) mt_fields
    → let v' = (unimpi_vtable_init_openmpi e h v).1 in
      IsBound e h g f (v.unimpi f) (v'.unimpi f) × IsBound e h g' k (v.unimpi_mt k) (v'.unimpi_mt k)
openmpi-fields e h v g g' f k r m l n =
    let (same, same_mt) = openmpi_between e h (run e h openmpi_head v) in
    rw (openmpi_ok e h v r) (
      unimpi-two_parts openmpi_local openmpi_head openmpi_tail main_fields mt_fields e h v _ g f
          openmpi_complete (ap (λ (u : String → ℕ). u f) same) m l,
      unimpi_mt-two_parts openmpi_local openmpi_head openmpi_tail main_fields mt_fields e h v _ g' k
          openmpi_complete (ap (λ (u : String → ℕ). u k) same_mt) n,
    )
