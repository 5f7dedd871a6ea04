-- ===== src/Lifecycle/Loading.antt =====
-- `unimpi_ensure_loaded` of src/core.c.
use uni_mpi.Base.{true, Option, ◌∷◌, if◌then◌else◌, ◌==◌}
use uni_mpi.Base.Text.{Text}
use uni_mpi.Base.Int.{ℤ, int_eq}
use uni_mpi.Codes.{ok}
use uni_mpi.Platform.{Env}
use uni_mpi.Loader.{unimpi_loader_detect_backend, unimpi_loader_load}
use uni_mpi.Init.{unimpi_vtable_init, unimpi_get_backend_type}
use uni_mpi.Lifecycle.State.{Core, opened, save_backend_identity, unload}

-- `unimpi_loader_load(path, &g_handle)`.
unfoldable pub load : Env → Option Text → Core → ℤ × Core
load e path s =
    let (code, h) = unimpi_loader_load e path true in
    (code, record s { handle = h; calls = if h == 0 then s.calls else opened h ∷ s.calls })

-- `unimpi_vtable_init(g_handle)`.
unfoldable pub fill : Env → Core → ℤ × Core
fill e s =
    let (code, vt) = unimpi_vtable_init e s.handle s.identity.backend_name s.vt in
    (code, record s { vt = vt })

-- Load, fill the tables, and note what was loaded; a library whose tables cannot be filled is
-- closed again. `unimpi_ensure_loaded` and `unimpi_init_with` both do this.
unfoldable pub load_backend : Env → Option Text → Core → ℤ × Core
unfolding unload unimpi_get_backend_type save_backend_identity
load_backend e path s =
    let (loaded, s1) = load e path s in
    let (filled, s2) = fill e s1 in
    if int_eq loaded ok
    then if int_eq filled ok
      then (ok, save_backend_identity (unimpi_get_backend_type s2.vt) path s2)
      else (filled, unload s2)
    else (loaded, s1)

unfoldable pub unimpi_ensure_loaded : Env → Core → ℤ × Core
unimpi_ensure_loaded e s =
    let (detected, path) = unimpi_loader_detect_backend e true in
    let (code, s1) = load_backend e path s in
    if s.backend_loaded
    then (ok, s)
    else if int_eq detected ok
    then if int_eq code ok then (ok, record s1 { backend_loaded = true }) else (code, s1)
    else (detected, s)
