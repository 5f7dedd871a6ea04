-- ===== src/Names/Calls.antt =====
-- Where a call under a standard name goes once the tables are filled.
use mathlib.Core.List.{Memᴰ}
use uni_mpi.Base.{
  ℕ, Bool, List, [], ◌∷◌, ◌++◌, any, str_eq, true, false, String, Option, some, ◌≡◌, refl, arith,
  &&_true, ◌&&◌, ◌∙◌, sym, ap,
}
use uni_mpi.Base.Text.{Text, codes, text_eq, text_eq→eq}
use uni_mpi.Codes.{ok}
use uni_mpi.Platform.{Env}
use uni_mpi.Vtable.{Vtable, Gate, base, mpi_3_0, enabled}
use uni_mpi.Vtable.Binding.{std_symbol, declares, declares→Memᴰ, all-Memᴰ}
use uni_mpi.Fields.{main_fields, mt_fields}
use uni_mpi.Loader.{unimpi_loader_identify_backend}
use uni_mpi.Backends.Parity.{legacy_local, wrapper_fields, own_fields}
use uni_mpi.Init.{unimpi_vtable_init, init_backend, reset}
use uni_mpi.Init.Core.{IsShared, init_backend-IsBound, init_steps}
use uni_mpi.Names.{std_macros}
use uni_mpi.Names.Macro.{
  Replacement, field, mt_field, forward, variable, function, pointer, is_local, list_eq,
}
use uni_mpi.Names.Parity.{fits, macros_fit}

any-append_false {ℓ} :
    {A : Type ℓ} (p : A → Bool) (xs ys : List A) → any p (xs ++ ys) ≡ false → any p ys ≡ false
any-append_false p [] ys h = h
any-append_false p (x ∷ xs) ys h = any-append_false p xs ys (ground arith)

legacy→IsShared : (f : String) → legacy_local f ≡ false → IsShared f
legacy→IsShared f l = (l, any-append_false (λ s. str_eq s f) wrapper_fields own_fields l)

init_declared : Memᴰ (base, "init") main_fields
unfolding main_fields
init_declared = declares→Memᴰ base "init" main_fields refl

t_finalize_declared : Memᴰ (mpi_3_0, "t_finalize") mt_fields
unfolding mt_fields
t_finalize_declared = declares→Memᴰ mpi_3_0 "t_finalize" mt_fields refl

-- After a successful fill, the declared fields hold the symbols of their names.
module _ (e : Env) (h : ℕ) (name : Option Text) (v : Vtable)
    (filled : (unimpi_vtable_init e h name v).0 ≡ ok) where
  main_bound :
      (g : Gate) (f : String)
      → Memᴰ (g, f) main_fields
      → legacy_local f ≡ false
      → enabled e.target g ≡ true
      → (unimpi_vtable_init e h name v).1.unimpi f ≡ e.dlsym h (std_symbol f)
  main_bound g f m l on =
      let (_, _, same) = init_steps e h name v filled in
      let t = unimpi_loader_identify_backend e h in
      let v0 = record (reset e v) { backend_type = t; backend_handle = h } in
      let r : (init_backend t e h v0).0 ≡ ok = rw same at filled in
      let bound =
        (init_backend-IsBound t e h v0 g mpi_3_0 f "t_finalize" r m (legacy→IsShared f l)
          t_finalize_declared).0 in
      rw same (rw on at bound)

  mt_bound :
      (g : Gate) (k : String)
      → Memᴰ (g, k) mt_fields
      → enabled e.target g ≡ true
      → (unimpi_vtable_init e h name v).1.unimpi_mt k ≡ e.dlsym h (std_symbol k)
  mt_bound g k m on =
      let (_, _, same) = init_steps e h name v filled in
      let t = unimpi_loader_identify_backend e h in
      let v0 = record (reset e v) { backend_type = t; backend_handle = h } in
      let r : (init_backend t e h v0).0 ≡ ok = rw same at filled in
      let bound =
        (init_backend-IsBound t e h v0 base g "init" k r init_declared (refl, refl) m).1 in
      rw same (rw on at bound)

  goes_main :
      (g : Gate) (m f : String) (a : ℕ)
      → (text_eq (codes m) (std_symbol f) && declares g f main_fields) ≡ true
      → enabled e.target g ≡ true
      → legacy_local f ≡ false
      → (unimpi_vtable_init e h name v).1.unimpi f ≡ a
      → a ≡ e.dlsym h (codes m)
  goes_main g m f a good on l here =
      let (same_name, declared) =
        &&_true (text_eq (codes m) (std_symbol f)) (declares g f main_fields) good in
      sym here
      ∙ (main_bound g f (declares→Memᴰ g f main_fields declared) l on
          ∙ ap (e.dlsym h) (sym (text_eq→eq (codes m) (std_symbol f) same_name)))

  goes :
      (g : Gate) (m : String) (r : Replacement) (a : ℕ)
      → fits (g, m, r) ≡ true
      → enabled e.target g ≡ true
      → is_local r ≡ false
      → pointer r (unimpi_vtable_init e h name v).1 ≡ some a
      → a ≡ e.dlsym h (codes m)
  unfolding pointer
  goes g m (field f) a good on l p = goes_main g m f a good on l (cc)
  goes g m (forward parameters f arguments) a good on l p =
      goes_main g m f a
        (&&_true (list_eq parameters arguments)
          (text_eq (codes m) (std_symbol f) && declares g f main_fields) good).1
        on l (cc)
  goes g m (mt_field k) a good on l p =
      let (same_name, declared) =
        &&_true (text_eq (codes m) (std_symbol k)) (declares g k mt_fields) good in
      let here : (unimpi_vtable_init e h name v).1.unimpi_mt k ≡ a = cc in
      sym here
      ∙ (mt_bound g k (declares→Memᴰ g k mt_fields declared) on
          ∙ ap (e.dlsym h) (sym (text_eq→eq (codes m) (std_symbol k) same_name)))
  goes g m (variable n) a good on l p = cc
  goes g m (function n) a good on l p = cc

-- Once `unimpi_vtable_init` has returned UNIMPI_OK, for whichever implementation, a call under a
-- standard name that the target version has, and that stands for a field of a table which holds no
-- function of UniMPI, goes through the library's own symbol of that standard name.
pub macro_reaches_library :
    (e : Env) (h : ℕ) (name : Option Text) (v : Vtable) (g : Gate) (m : String) (r : Replacement)
    (a : ℕ)
    → (unimpi_vtable_init e h name v).0 ≡ ok
    → Memᴰ (g, m, r) std_macros
    → enabled e.target g ≡ true
    → is_local r ≡ false
    → pointer r (unimpi_vtable_init e h name v).1 ≡ some a
    → a ≡ e.dlsym h (codes m)
macro_reaches_library e h name v g m r a filled member on l p =
    goes e h name v filled g m r a (all-Memᴰ fits std_macros macros_fit member) on l p
