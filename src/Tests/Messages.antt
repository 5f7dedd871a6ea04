-- ===== src/Tests/Messages.antt =====
-- Naming error codes.
use mathlib.Core.List.{Memᴰ}
use uni_mpi.Base.{
  String, List, [], ◌∷◌, any, str_eq, true, ◌≡◌, refl, eq_iff, Bool-cases, inl, inr, sym, arith,
}
use uni_mpi.Errors.RoundTrip.{
  IsNamed, assigned, openmpi-names_codes, mpich-names_codes, intelmpi-names_codes,
  msmpi-names_codes,
}
use uni_mpi.Backends.Openmpi.{init_openmpi_error_codes}
use uni_mpi.Backends.Mpich.{init_mpich_error_codes}
use uni_mpi.Backends.Intelmpi.{init_intelmpi_error_codes}
use uni_mpi.Backends.Msmpi.{init_msmpi_error_codes}
use uni_mpi.Errors.Names.{error_names}
use uni_mpi.Tests.Demo.{mpich_linux_env, full_table}

found : (n : String) (ns : List String) → any (λ m. str_eq m n) ns ≡ true → Memᴰ n ns
found n [] h = cc
found n (m ∷ ns) h = elim (Bool-cases (str_eq m n)) [
  | inl same ↦ Memᴰ.head (sym ((eq_iff m n).0 same))
  | inr other ↦ Memᴰ.tail (found n ns (ground arith))
]

truncate_in_openmpi : Memᴰ "MPI_ERR_TRUNCATE" (assigned init_openmpi_error_codes)
unfolding init_openmpi_error_codes error_names
truncate_in_openmpi = found "MPI_ERR_TRUNCATE" (assigned init_openmpi_error_codes) refl

openmpi-names_codes_example :
    IsNamed init_openmpi_error_codes mpich_linux_env 12 full_table "MPI_ERR_TRUNCATE"
openmpi-names_codes_example =
    openmpi-names_codes mpich_linux_env 12 full_table "MPI_ERR_TRUNCATE" truncate_in_openmpi

truncate_in_mpich : Memᴰ "MPI_ERR_TRUNCATE" (assigned init_mpich_error_codes)
unfolding init_mpich_error_codes error_names
truncate_in_mpich = found "MPI_ERR_TRUNCATE" (assigned init_mpich_error_codes) refl

mpich-names_codes_example :
    IsNamed init_mpich_error_codes mpich_linux_env 12 full_table "MPI_ERR_TRUNCATE"
mpich-names_codes_example =
    mpich-names_codes mpich_linux_env 12 full_table "MPI_ERR_TRUNCATE" truncate_in_mpich

truncate_in_intelmpi : Memᴰ "MPI_ERR_TRUNCATE" (assigned init_intelmpi_error_codes)
unfolding init_intelmpi_error_codes error_names
truncate_in_intelmpi = found "MPI_ERR_TRUNCATE" (assigned init_intelmpi_error_codes) refl

intelmpi-names_codes_example :
    IsNamed init_intelmpi_error_codes mpich_linux_env 12 full_table "MPI_ERR_TRUNCATE"
intelmpi-names_codes_example =
    intelmpi-names_codes mpich_linux_env 12 full_table "MPI_ERR_TRUNCATE" truncate_in_intelmpi

truncate_in_msmpi : Memᴰ "MPI_ERR_TRUNCATE" (assigned init_msmpi_error_codes)
unfolding init_msmpi_error_codes error_names
truncate_in_msmpi = found "MPI_ERR_TRUNCATE" (assigned init_msmpi_error_codes) refl

msmpi-names_codes_example :
    IsNamed init_msmpi_error_codes mpich_linux_env 12 full_table "MPI_ERR_TRUNCATE"
msmpi-names_codes_example =
    msmpi-names_codes mpich_linux_env 12 full_table "MPI_ERR_TRUNCATE" truncate_in_msmpi
