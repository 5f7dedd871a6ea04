-- ===== src/Errors.antt =====
-- src/error.c: error codes in words. The MPI variables are those that a backend assigns.
pub mod Names
pub mod RoundTrip
pub mod Debug
use Names.{error_names}
use uni_mpi.Base.{Bool, true, false, Option, none, some, String, List, [], ◌∷◌, if◌then◌else◌, ◌||◌}
use uni_mpi.Base.Int.{ℤ, int_eq}
use uni_mpi.Codes.{
  ok, err_no_backend, err_backend_load, err_abi_mismatch, err_not_initialized,
  err_already_initialized, err_symbol_not_found, err_out_of_memory, err_invalid_argument,
  err_backend_not_supported, err_backend_init_failed,
}

-- The first of the names whose variable has the value.
unfoldable pub first_name : List String → (String → ℤ) → ℤ → String
first_name [] g error_code = "Unknown MPI error"
first_name (name ∷ names) g error_code =
    if int_eq error_code (g name) then name else first_name names g error_code

unfoldable pub unimpi_mpi_error_string : (String → ℤ) → ℤ → String
unfolding first_name error_names
unimpi_mpi_error_string g error_code = first_name error_names g error_code

-- The cases of the `switch`.
unfoldable pub messages : List (ℤ × String)
messages =
    (ok, "Success")
    ∷ (err_no_backend, "No MPI backend found")
    ∷ (err_backend_load, "Failed to load MPI backend library")
    ∷ (err_abi_mismatch, "MPI ABI version mismatch")
    ∷ (err_not_initialized, "TFTK-MPI not initialized")
    ∷ (err_already_initialized, "TFTK-MPI already initialized")
    ∷ (err_symbol_not_found, "Required MPI symbol not found in backend")
    ∷ (err_out_of_memory, "Out of memory")
    ∷ (err_invalid_argument, "Invalid argument")
    ∷ (err_backend_not_supported, "Backend not supported on this platform")
    ∷ (err_backend_init_failed, "Backend initialization failed")
    ∷ []

unfoldable pub message_of : List (ℤ × String) → ℤ → String
message_of [] error_code = "Unknown error"
message_of ((code, message) ∷ rest) error_code =
    if int_eq error_code code then message else message_of rest error_code

unfoldable pub unimpi_error_string : ℤ → String
unfolding messages message_of
unimpi_error_string error_code = message_of messages error_code

-- The code, and what `*error_class` is set to. `has_class` says whether the pointer is not NULL.
unfoldable pub unimpi_error_class : (String → ℤ) → ℤ → Bool → ℤ × Option ℤ
unimpi_error_class g error_code false = (err_invalid_argument, none)
unimpi_error_class g error_code true =
    if int_eq error_code ok
    then (ok, some (g "MPI_SUCCESS"))
    else if int_eq error_code err_invalid_argument
    then (ok, some (g "MPI_ERR_ARG"))
    else if int_eq error_code err_no_backend
        || (int_eq error_code err_backend_load || int_eq error_code err_backend_init_failed)
    then (ok, some (g "MPI_ERR_OTHER"))
    else (ok, some (g "MPI_ERR_UNKNOWN"))
