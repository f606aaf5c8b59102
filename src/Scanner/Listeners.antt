-- ===== src/Scanner/Listeners.antt =====
-- Whom a change of the file cache is exported to.
use rufs.Base.{
  ℕ, zero, suc, ◌+◌, ◌-◌, ◌≤◌, ◌≡◌, refl, sym, ◌∙◌, ap, ap₂, subst, List, [], ◌∷◌, ◌++◌, Option,
  none, some, Bool, true, false, Bool-cases, inl, inr, All, Str, nat_eq, lookup, length,
  length-append, get_elem?, set, take, if◌then◌else◌, arith,
}
use mathlib.Core.List.{append_assoc}
use rufs.Common.{FileInfo}
use rufs.Scanner.{Listener, Export, Scanner, last_or, info_or_zero, notify, set_info}

-- How often a listener is registered.
abbrev pub occurs : Listener → List Listener → ℕ
occurs l [] = 0
occurs l (x ∷ xs) = (if nat_eq x l then 1 else 0) + occurs l xs

-- The calls of the listeners of a list, in order.
abbrev pub called : (Listener → Export) → List Listener → List Export → List Export
called call [] log = log
called call (l ∷ ls) log = called call ls (call l ∷ log)

-- `v ∷ r` without its last listener.
init : Listener → List Listener → List Listener
init v [] = []
init v (z ∷ r) = v ∷ init z r

length-init : (v : Listener) (r : List Listener) → length (init v r) ≡ length r
unfolding init
length-init v [] = refl
length-init v (z ∷ r) = ap suc (length-init z r)

occurs-last :
    (l y : Listener) (r : List Listener) → occurs l (last_or y r ∷ init y r) ≡ occurs l (y ∷ r)
unfolding init
occurs-last l y [] = refl
occurs-last l y (z ∷ r) = omega (arith, occurs-last l z r)

occurs-moved : (l x : Listener) (r : List Listener) → occurs l (init (last_or x r) r) ≡ occurs l r
unfolding init
occurs-moved l x [] = refl
occurs-moved l x (y ∷ r) = occurs-last l y r

set-append :
    (pre r : List Listener) (x v : Listener) → set (pre ++ x ∷ r) (length pre) v ≡ pre ++ v ∷ r
set-append [] r x v = refl
set-append (p ∷ pre) r x v = ap (◌∷◌ p) (set-append pre r x v)

get_elem?-append :
    (pre r : List Listener) (x : Listener) → get_elem? (pre ++ x ∷ r) (length pre) ≡ some x
get_elem?-append [] r x = refl
get_elem?-append (p ∷ pre) r x = get_elem?-append pre r x

get_elem?-end : (pre : List Listener) → get_elem? (pre ++ []) (length pre) ≡ none
get_elem?-end [] = refl
get_elem?-end (p ∷ pre) = get_elem?-end pre

last_or-append :
    (d : Listener) (pre r : List Listener) (x : Listener) → last_or d (pre ++ x ∷ r) ≡ last_or x r
last_or-append d [] r x = refl
last_or-append d (p ∷ pre) r x = last_or-append p pre r x

take-init :
    (n : ℕ) (pre r : List Listener) (v : Listener)
    → suc n ≡ length (pre ++ v ∷ r)
    → take n (pre ++ v ∷ r) ≡ pre ++ init v r
unfolding init
take-init zero [] [] v e = refl
take-init zero [] (z ∷ r) v e = absurd (omega arith)
take-init (suc n) [] [] v e = absurd (omega arith)
take-init (suc n) [] (z ∷ r) v e = ap (◌∷◌ v) (take-init n [] r z (omega arith))
take-init zero (p ∷ pre) r v e = absurd (omega (arith, length-append pre (v ∷ r)))
take-init (suc n) (p ∷ pre) r v e = ap (◌∷◌ p) (take-init n pre r v (omega arith))

-- The last listener takes the place of `x`.
moved :
    (pre r : List Listener) (x : Listener)
    → take (length (pre ++ x ∷ r) - 1) (set (pre ++ x ∷ r) (length pre) (last_or x (pre ++ x ∷ r)))
      ≡ pre ++ init (last_or x r) r
moved pre r x =
    rw (last_or-append, set-append)
      (take-init _ pre r (last_or x r)
        (omega (arith, length-append pre (x ∷ r), length-append pre (last_or x r ∷ r))))

module _ (is_done : Listener → Bool) (call : Listener → Export) where
  not_met :
      (x l : Listener) (r : List Listener)
      → is_done x ≡ true
      → is_done l ≡ false
      → occurs l r ≡ occurs l (x ∷ r)
  not_met x l r e d = elim (Bool-cases (nat_eq x l)) [
    | inr n ↦ rw n (omega arith)
    | inl s ↦
        let same : x ≡ l = ground arith in
        let wrong : true ≡ false = cc (e, d, same) in absurd (cc wrong)
  ]

  -- What the loop makes of the listeners `rest` that it has not met.
  abbrev IsNotified :
      List Listener → List Listener → List Export → List Listener × List Export → Type 0
  IsNotified pre rest log out =
      (kept : List Listener) × (out ≡ (pre ++ kept, called call kept log))
      × All (λ l. is_done l ≡ false) kept
      × ((l : Listener) → is_done l ≡ false → occurs l kept ≡ occurs l rest)

  notify-IsNotified :
      (fuel : ℕ) (pre rest : List Listener) (log : List Export)
      → length rest ≤ fuel
      → IsNotified pre rest log (notify fuel (length pre) is_done call (pre ++ rest) log)
  unfolding notify
  notify-IsNotified zero pre [] log h = ([], refl, tt, λ l e. refl)
  notify-IsNotified zero pre (x ∷ r) log h = absurd (omega arith)
  notify-IsNotified (suc n) pre [] log h = ([], rw (notify, get_elem?-end) refl, tt, λ l e. refl)
  notify-IsNotified (suc n) pre (x ∷ r) log h = elim (Bool-cases (is_done x)) [
    | inl e ↦
        let rest = init (last_or x r) r in
        let (kept, run, live, same) =
          notify-IsNotified n pre rest log (omega (arith, length-init (last_or x r) r)) in
        let step : notify (suc n) (length pre) is_done call (pre ++ x ∷ r) log
            ≡ notify n (length pre) is_done call (pre ++ rest) log =
          rw (notify, get_elem?-append pre r x, e)
            (ap (λ ls. notify n (length pre) is_done call ls log) (moved pre r x)) in
        (kept, step ∙ run, live, λ l d. same l d ∙ occurs-moved l x r ∙ not_met x l r e d)
    | inr e ↦
        let (kept, run, live, same) =
          notify-IsNotified n (pre ++ x ∷ []) r (call x ∷ log) (omega arith) in
        let step : notify (suc n) (length pre) is_done call (pre ++ x ∷ r) log
            ≡ notify n (length pre + 1) is_done call (pre ++ x ∷ r) (call x ∷ log) =
          rw (notify, get_elem?-append pre r x, e) refl in
        let on : notify n (length (pre ++ x ∷ [])) is_done call ((pre ++ x ∷ []) ++ r)
              (call x ∷ log)
            ≡ notify n (length pre + 1) is_done call (pre ++ x ∷ r) (call x ∷ log) =
          ap₂ (λ i ls. notify n i is_done call ls (call x ∷ log))
            (omega (arith, length-append pre (x ∷ []))) (append_assoc pre (x ∷ []) r) in
        (
          x ∷ kept,
          step
              ∙ sym on
              ∙ run
              ∙ ap (λ ls. (ls, called call kept (call x ∷ log))) (append_assoc pre (x ∷ []) kept),
          (e, live),
          λ l d. ap (λ k. (if nat_eq x l then 1 else 0) + k) (same l d),
        )
  ]

-- The call that a change of the file cache makes to a listener.
abbrev pub export_of : Str → Option FileInfo → Option FileInfo → Listener → Export
export_of path info old l = record {
  listener = l;
  path = path;
  info = info;
  old = some (info_or_zero old);
}

absent :
    (is_done : Listener → Bool) (l : Listener) (ls : List Listener)
    → All (λ l. is_done l ≡ false) ls
    → is_done l ≡ true
    → occurs l ls ≡ 0
absent is_done l [] h d = refl
absent is_done l (x ∷ ls) h d = elim (Bool-cases (nat_eq x l)) [
  | inr n ↦ rw n (omega (arith, absent is_done l ls h.1 d))
  | inl s ↦
      let same : x ≡ l = ground arith in
      let wrong : false ≡ true = cc (h.0, d, same) in absurd (cc wrong)
]

-- A change of the file cache calls the listeners that it leaves, in order, with the new
-- information and the old; it leaves every listener as often as it was registered, and those that
-- are done not at all.
pub set_info-exports :
    (is_done : Listener → Bool) (path : Str) (info : Option FileInfo) (m : Scanner)
    → ((set_info is_done path info m).exports
        ≡ called
            (export_of path info (lookup path m.file_cache))
            (set_info is_done path info m).listeners
            m.exports)
      × ((l : Listener)
          → occurs l (set_info is_done path info m).listeners
            ≡ (if is_done l then 0 else occurs l m.listeners))
unfolding set_info
set_info-exports is_done path info m =
    let call = export_of path info (lookup path m.file_cache) in
    let (kept, run, live, same) =
      notify-IsNotified is_done call (length m.listeners) [] m.listeners m.exports (omega arith) in
    subst
      (λ out.
        (out.1 ≡ called call out.0 m.exports)
        × ((l : Listener) → occurs l out.0 ≡ (if is_done l then 0 else occurs l m.listeners)))
      (sym run)
      (
        refl,
        λ l. elim (Bool-cases (is_done l)) [
          | inl d ↦ rw d (absent is_done l kept live d)
          | inr d ↦ rw d (same l d)
        ],
      )
