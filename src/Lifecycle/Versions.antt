-- ===== src/Lifecycle/Versions.antt =====
-- The calls of src/core.c that answer with a version or compute with addresses. A pointer argument
-- is whether it is not NULL, and `none` says that nothing is written.
use uni_mpi.Base.{
  ℕ, Bool, ◌&&◌, Option, none, some, ◌+◌, ◌-◌, ◌%◌, ◌^◌, leb, length, take, if◌then◌else◌,
}
use uni_mpi.Base.Text.{Text, codes}
use uni_mpi.Base.Int.{ℤ}
use uni_mpi.Codes.{ok, err_invalid_argument}

-- UNIMPI_MPI_VERSION and UNIMPI_MPI_SUBVERSION.
unfoldable pub unimpi_mpi_get_version : Bool → Bool → ℤ × Option (ℕ × ℕ)
unimpi_mpi_get_version has_version has_subversion =
    if has_version && has_subversion then (ok, some (3, 0)) else (err_invalid_argument, none)

-- `g_mpi_library_version`, which nothing writes.
abbrev pub library_version : Text
library_version = codes "unimpi 0.1.0 (no active MPI backend)"

-- `len`, at most UNIMPI_MAX_LIBRARY_VERSION_STRING - 1.
unfoldable pub unimpi_mpi_get_library_version : Bool → Bool → ℤ × Option (Text × ℕ)
unimpi_mpi_get_library_version has_version has_resultlen =
    let len = if leb 8192 (length library_version) then 8191 else length library_version in
    if has_version && has_resultlen
    then (ok, some (take len library_version, len))
    else (err_invalid_argument, none)

-- An address of 64 bits, without its sign.
abbrev pub address_range : ℕ
address_range = 2 ^ 64

unfoldable pub unimpi_aint_add : ℕ → ℕ → ℕ
unimpi_aint_add base disp = (base + disp) % address_range

unfoldable pub unimpi_aint_diff : ℕ → ℕ → ℕ
unimpi_aint_diff addr1 addr2 = (addr1 + (address_range - addr2 % address_range)) % address_range
