-- ===== src/Lib.antt =====
-- UniMPI: one MPI interface for programs, over an MPI implementation that is loaded at run time.
--
-- The library chooses a shared library (src/loader.c), opens it, tells which implementation it is,
-- and fills the function table `unimpi` and, for MPI 3.0 and later, the table `unimpi_mt` with the
-- addresses of its functions (src/vtable.c and one init function per implementation in
-- src/backends). Every MPI call of a program goes through a table. src/core.c starts and ends MPI
-- and counts the references to the loaded library, of which the tools interface (src/mpit.c) holds
-- its own.
--
-- Where what is modelled:
--   Base        numbers, texts as lists of bytes, lists, the tests and lemmas on them
--   Codes       the return codes and thread levels of include/unimpi.h, the implementations
--   Platform    UNIMPI_MPI_AT_LEAST, and the environment of a call: `getenv`, `dlopen`, `dlsym`, and
--               what the functions of the loaded MPI library return. It is a parameter of every
--               definition that uses it, and nothing is assumed of it.
--   Fields      the fields that include/unimpi_vtable.h and include/unimpi_mt.h declare, each with
--               the target version that it stands under
--   Globals     the variables that the sources define, with the values they start with, and those
--               that the headers declare
--   Names       the macros of include/unimpi_std_macros.h, by which a program's MPI names reach the
--               tables, the variables and UniMPI's own functions
--   Vtable      the tables and predefined variables as one record, and the statements that the init
--               functions are made of, with their meaning
--   Backends    the statements of src/backends/{openmpi,mpich,intelmpi,msmpi}.c in order; the names
--               of the C functions are kept. Parity compares them with the declared fields;
--               Wrapped is about the fields that take a function of Wrappers
--   Loader      src/loader.c, with the names of its functions
--   Init        src/vtable.c, with the names of its functions
--   Lifecycle   src/core.c and src/mpit.c: State has the static variables, and a trace of the
--               libraries opened and closed; Loading, Init, Mpit, Query and Versions have the
--               functions, with their names; the other modules prove what they keep and return
--   Wrappers    src/backends/{mpich,intelmpi,msmpi}_wrappers.c, with the names of their functions,
--               the files for Intel MPI and MS-MPI in modules of their own: the conversion of handle
--               and status arrays in place, on a memory of 32-bit words, and the calls around which
--               it is done. The library's function and `memcpy` are parameters. Statuses has the
--               functions of src/backends that read a status, too
--   Errors      the strings of src/error.c; RoundTrip, with the codes that Backends assigns; Debug,
--               which messages are printed
--   Tests       the theorems at concrete inputs
--
-- A call through a NULL function pointer is the outcome `fault`. Loops over tables are recursion on
-- lists, and loops over arrays recursion on the count of rounds, so no definition takes fuel.
-- Pointers and handles are natural numbers, and 0 is NULL; an `int` that the code only compares,
-- counts or passes on is an integer without bounds. So are the offsets in arrays of statuses: `int` holds
-- them for up to 89478486 statuses, above which their product overflows, which C leaves undefined,
-- and the model says nothing.
--
-- Not modelled: what is printed to stderr, failure of `malloc` for the copies of names and in
-- `neighbor_degree`, threads that call the library at the same time (its variables are not
-- protected), src/platform_posix.c and src/platform_windows.c, whose calls of the system are fields
-- of the environment, and the signatures of the functions in the tables: a field holds an address.
pub mod Base
pub mod Codes
pub mod Platform
pub mod Vtable
pub mod Globals
pub mod Fields
pub mod Backends
pub mod Loader
pub mod Init
pub mod Lifecycle
pub mod Wrappers
pub mod Names
pub mod Tests
pub mod Errors
