-- ===== src/Start.antt =====
-- main.go: the paths of the flags, and the modules of the program from their creation to the exit
-- code. Start/Ending: the goroutines that run the modules, the signal, and the order of results.
pub mod Ending
mod Tests
use rufs.Base.{
  ℕ, zero, suc, ◌-◌, ◌≡◌, refl, ◌∙◌, ap, List, [], ◌∷◌, ◌++◌, Option, none, some, Bool, true, false,
  ◌||◌, Str, text, has_prefix, length, drop, if◌then◌else◌, Error, other_error, Result, ok, err,
  panic, ◌>>=◌, arith,
}

-- The current user's home and filepath.Join. Without a current user `getPath` takes a field of a nil
-- pointer.
pub record Paths : Type 0 where
  pub home : Option Str
  pub join_paths : List Str → Str

abbrev pub placeholder : Str
placeholder = text "%rufs_var_storage%"

abbrev add_byte : ℕ → List Str → List Str
add_byte c [] = (c ∷ []) ∷ []
add_byte c (p ∷ ps) = (c ∷ p) ∷ ps

-- strings.Split with a longer separator; the number is how many bytes of one are still to be passed.
unfoldable pub split_on : Str → ℕ → Str → List Str
split_on sep skip [] = [] ∷ []
split_on sep (suc skip) (c ∷ s) = split_on sep skip s
split_on sep zero (c ∷ s) =
    let rest = split_on sep zero s in
    let behind = split_on sep (length sep - 1) s in
    if has_prefix (c ∷ s) sep then [] ∷ behind else add_byte c rest

-- The first part of `getPath`.
unfoldable pub expand_home : Paths → Str → Result Str
expand_home io path =
    if has_prefix path (text "~/")
    then elim io.home [ none ↦ panic | some home ↦ ok (io.join_paths (home ∷ drop 2 path ∷ [])) ]
    else ok path

-- The loop of `getPath` over the pieces behind the first one.
unfoldable pub fill : Paths → Str → Str → List Str → Str
fill io storage path [] = path
fill io storage path (piece ∷ pieces) =
    fill io storage (io.join_paths (path ∷ storage ∷ piece ∷ [])) pieces

-- `getPath` of the pieces between the placeholders, where `inner` is what it gives for the flag's
-- own path.
unfoldable pub fill_pieces : Paths → Option (Result Str) → List Str → Option (Result Str)
unfolding fill
fill_pieces io inner [] = some panic
fill_pieces io inner (first ∷ []) = some (ok first)
fill_pieces io none (first ∷ piece ∷ pieces) = none
fill_pieces io (some storage) (first ∷ piece ∷ pieces) =
    some (storage >>= λ s. ok (fill io s first (piece ∷ pieces)))

unfoldable pub fill_path : Paths → Option (Result Str) → Result Str → Option (Result Str)
unfolding fill_pieces
fill_path io inner (ok p) = fill_pieces io inner (split_on placeholder 0 p)
fill_path io inner (err e) = some (err e)
fill_path io inner panic = some panic

-- `getPath` with the value of --var_storage: it calls itself for the flag's own path. `none` is
-- that the fuel ran out.
unfoldable pub get_path : ℕ → Paths → Str → Str → Option (Result Str)
unfolding fill_path
get_path zero io var_storage path = none
get_path (suc fuel) io var_storage path =
    let inner = get_path fuel io var_storage var_storage in fill_path io inner (expand_home io path)

abbrev pub register_server_module {ℓ} :
    {M : Type ℓ}
    → List (M → Result (Option M))
    → (M → Result (Option M))
    → List (M → Result (Option M))
register_server_module makes f = makes ++ f ∷ []

-- `main` up to the modules: the master, the server, and what was registered with the server.
unfoldable pub register_all {ℓ} : {M : Type ℓ} → M → List (M → Result (Option M)) → Result (List M)
register_all server [] = ok []
register_all server (make ∷ makes) = do
  sm ← make server
  mods ← register_all server makes
  ok (elim sm [ none ↦ mods | some m ↦ m ∷ mods ])

unfoldable pub server_modules {ℓ} :
    {M : Type ℓ} → Bool → Result M → List (M → Result (Option M)) → Result (List M)
unfolding register_all
server_modules false new_server makes = ok []
server_modules true new_server makes = do s ← new_server; mods ← register_all s makes; ok (s ∷ mods)

-- Without a module `main` ends with an error.
abbrev pub at_least_one {ℓ} : {M : Type ℓ} → List M → Result (List M)
at_least_one [] = err (other_error 1)
at_least_one (m ∷ ms) = ok (m ∷ ms)

unfoldable pub modules {ℓ} :
    {M : Type ℓ}
    → Bool
    → Bool
    → Result M
    → Result M
    → List (M → Result (Option M))
    → Result (List M)
unfolding server_modules
modules with_master with_server new_master new_server makes = do
  first ← if with_master then (new_master >>= λ m. ok (m ∷ [])) else ok []
  rest ← server_modules with_server new_server makes
  at_least_one (first ++ rest)

-- The modules are set up in order, up to the first that fails.
unfoldable pub set_up {ℓ} : {M : Type ℓ} → (M → Result (Unit {0})) → List M → Result (Unit {0})
set_up setup [] = ok tt
set_up setup (m ∷ mods) = setup m >>= λ u. set_up setup mods

abbrev pub failed : Option Error → Bool
failed none = false
failed (some e) = true

-- The loop of `main` over the results of the modules: the number is `i + 1`, then the result at hand,
-- those that are still to come, and `ec`.
unfoldable pub exit_code : ℕ → Option Error → List (Option Error) → ℕ → ℕ
exit_code zero e later ec = ec
exit_code (suc i) e [] ec = if failed e then 1 else ec
exit_code (suc i) e (r ∷ later) ec = exit_code i r later (if failed e then 1 else ec)

any_failed : List (Option Error) → Bool
any_failed [] = false
any_failed (r ∷ rs) = failed r || any_failed rs

-- The exit code is 1 exactly when one of the modules, of which there is at least one, has failed.
exit_code_lem :
    (e : Option Error) (later : List (Option Error)) (ec : ℕ)
    → exit_code (length (e ∷ later)) e later ec ≡ (if any_failed (e ∷ later) then 1 else ec)
unfolding exit_code any_failed
exit_code_lem e [] ec = ground arith
exit_code_lem e (r ∷ later) ec = exit_code_lem r later (if failed e then 1 else ec) ∙ ground arith

filled :
    (io : Paths) (r : Result Str) (pieces : List Str)
    → (out : Result Str) × (fill_pieces io (some r) pieces ≡ some out)
unfolding fill_pieces
filled io r [] = (panic, refl)
filled io r (first ∷ []) = (ok first, refl)
filled io r (first ∷ piece ∷ pieces) = (_, refl)

ended :
    (io : Paths) (r path : Result Str)
    → (out : Result Str) × (fill_path io (some r) path ≡ some out)
unfolding fill_path
ended io r (ok p) = filled io r (split_on placeholder 0 p)
ended io r (err e) = (err e, refl)
ended io r panic = (panic, refl)

-- Where --var_storage has no placeholder, getPath ends for every path, within two calls one inside
-- the other.
get_path_ends :
    (fuel : ℕ) (io : Paths) (var_storage storage path : Str)
    → expand_home io var_storage ≡ ok storage
    → split_on placeholder 0 storage ≡ storage ∷ []
    → (out : Result Str) × (get_path (suc (suc fuel)) io var_storage path ≡ some out)
unfolding get_path
get_path_ends fuel io var_storage storage path home clean =
    let inner : get_path (suc fuel) io var_storage var_storage ≡ some (ok storage) =
      rw (get_path, home, fill_path, clean) refl in
    let (out, e) = ended io (ok storage) (expand_home io path) in (out, rw (get_path, inner) e)

-- Where it has one, getPath never ends for it, however deep the calls go.
get_path_loops :
    (fuel : ℕ) (io : Paths) (var_storage storage first piece : Str) (pieces : List Str)
    → expand_home io var_storage ≡ ok storage
    → split_on placeholder 0 storage ≡ first ∷ piece ∷ pieces
    → get_path fuel io var_storage var_storage ≡ none
unfolding get_path
get_path_loops zero io var_storage storage first piece pieces home has = refl
get_path_loops (suc fuel) io var_storage storage first piece pieces home has =
    let inner = get_path_loops fuel io var_storage storage first piece pieces home has in
    rw (get_path, home, fill_path, has, inner) refl
