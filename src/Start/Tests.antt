-- ===== src/Start/Tests.antt =====
-- Paths below a home, and a program that a signal ends.
use rufs.Base.{
  ℕ, ◌≡◌, Option, refl, List, [], ◌∷◌, none, some, true, false, All, if◌then◌else◌, text, slash,
  has_prefix, join, Result, other_error, ok,
}
use rufs.Start.{
  Paths, split_on, expand_home, fill, fill_pieces, fill_path, get_path, modules, register_all,
  register_server_module, server_modules, set_up, exit_code,
}
use rufs.Start.Ending.{
  Program, taken, exited, launch, start, take_result, returns, signalled, next, Reach, here, later,
  IsTaken, took_error, exits_with_every_result,
}

program : Unit {0}
unfolding split_on expand_home fill fill_pieces fill_path get_path has_prefix join modules
    register_all server_modules set_up exit_code launch take_result
program = tt

abbrev paths : Paths
paths = record { home = some (text "/home/amy"); join_paths = join slash }

key :
    get_path 2 paths (text "~/.rufs") (text "%rufs_var_storage%/ca.key")
    ≡ some (ok (text "//home/amy/.rufs//ca.key"))
unfolding program
key = refl

-- A flag that names itself is never done.
itself : get_path 9 paths (text "%rufs_var_storage%/x") (text "%rufs_var_storage%") ≡ none
unfolding program
itself = refl

-- A master and a server; what is registered with the server makes no module.
abbrev registered : List (ℕ → Result (Option ℕ))
registered = register_server_module [] (λ m. ok none)

abbrev two : Result (List ℕ)
two = modules true true (ok 0) (ok 1) registered

two_launched : launch false (ok tt) two (λ m. ok tt) ≡ ok (some (0 ∷ 1 ∷ []))
unfolding program
two_launched = refl

-- With --master_gen_keys none is started.
only_keys : launch true (ok tt) two (λ m. ok tt) ≡ ok none
unfolding program
only_keys = refl

abbrev code : ℕ
code = 1

abbrev ended : Program
ended = record {
  mods = taken none ∷ taken (some (other_error 7)) ∷ [];
  cancelled = true;
  phase = exited code;
}

-- A signal comes; the server's result, an error, is taken first.
shut_down : Reach (start {M = ℕ} (0 ∷ 1 ∷ [])) ended
unfolding program
shut_down =
    let e = some (other_error 7) in
    later
      (later (later (later (later here (signalled refl)) (returns 1 e refl)) (returns 0 none refl))
        (next 1 1 0 e refl refl))
      (next 0 0 1 none refl refl)

exits_with_every_result_example :
    All IsTaken ended.mods
    × (code ≡ (if took_error ended.mods then 1 else 0))
    × (ended.cancelled ≡ true)
exits_with_every_result_example =
    exits_with_every_result true true (ok 0) (ok 1) registered (ok tt) (λ m. ok tt) (0 ∷ 1 ∷ [])
      ended code two_launched shut_down refl
