-- ===== src/Base/Maps.antt =====
-- Go's `map[string]V` as an association list. The first entry with a key counts.
use mathlib.Core.Path.{◌≡◌, refl, ◌∙◌}
use mathlib.Core.Bool.{Bool, true, false, ◌&&◌, ◌||◌, not}
use mathlib.Core.Option.{Option, none, some}
use mathlib.Core.List.{List, [], ◌∷◌}
use native.Mathlib.Omega.{arith}
use mathlib.Core.Logic.{inl, inr}
use rufs.Base.Tests.{Bool-cases, if◌then◌else◌}
use rufs.Base.Text.{Str, ◌==◌, eq_iff, eq_refl, eq-cases}

abbrev pub Dict {ℓ} : Type ℓ → Type ℓ
Dict V = List (Str × V)

pub ne_swap : (j k : Str) → (j == k) ≡ false → (k == j) ≡ false
ne_swap j k e = ground (arith, eq_iff j k, eq_iff k j)

module _ {ℓ} {V : Type ℓ} where
  unfoldable pub lookup : Str → Dict V → Option V
  lookup k [] = none
  lookup k ((j, v) ∷ m) = if j == k then some v else lookup k m

  -- m[k] = v
  unfoldable pub insert : Str → V → Dict V → Dict V
  insert key new [] = (key, new) ∷ []
  insert key new ((k, old) ∷ m) =
      let rest = insert key new m in if k == key then (key, new) ∷ m else (k, old) ∷ rest

  -- delete(m, k)
  unfoldable pub delete : Str → Dict V → Dict V
  delete k [] = []
  delete k ((j, v) ∷ m) = let rest = delete k m in if j == k then rest else (j, v) ∷ rest

  abbrev pub keys : Dict V → List Str
  keys [] = []
  keys ((j, v) ∷ m) = j ∷ keys m

  unfoldable pub contains : Str → Dict V → Bool
  contains k m = elim (lookup k m) [ none ↦ false | some v ↦ true ]

  pub lookup-insert :
      (key at : Str) (new : V) (m : Dict V)
      → lookup at (insert key new m) ≡ (if key == at then some new else lookup at m)
  unfolding lookup insert
  lookup-insert key at new [] = refl
  lookup-insert key at new ((k, old) ∷ m) =
      ground (arith, lookup-insert key at new m, eq_iff key at, eq_iff k at, eq_iff k key)

  pub lookup-delete :
      (k j : Str) (m : Dict V) → lookup j (delete k m) ≡ (if k == j then none else lookup j m)
  unfolding lookup delete
  lookup-delete k j [] = ground arith
  lookup-delete k j ((i, w) ∷ m) =
      ground (arith, eq_iff k j, eq_iff i k, eq_iff i j, lookup-delete k j m)

  pub contains-lookup : (k : Str) (v : V) (m : Dict V) → lookup k m ≡ some v → contains k m ≡ true
  unfolding contains
  contains-lookup k v m h = ground arith

  pub contains-insert :
      (k j : Str) (v : V) (m : Dict V) → contains j (insert k v m) ≡ (k == j || contains j m)
  unfolding contains
  contains-insert k j v m = rw (contains, lookup-insert) (ground arith)

  pub contains-delete :
      (k j : Str) (m : Dict V) → contains j (delete k m) ≡ (not (k == j) && contains j m)
  unfolding contains
  contains-delete k j m = rw (contains, lookup-delete) (ground arith)

  pub lookup-insert_self : (k : Str) (v : V) (m : Dict V) → lookup k (insert k v m) ≡ some v
  lookup-insert_self k v m = rw (lookup-insert, eq_refl)

  -- Every key has one entry, as in a map of Go.
  abbrev pub IsMap : Dict V → Type ℓ
  IsMap [] = Unit
  IsMap ((k, v) ∷ m) = (lookup k m ≡ none) × IsMap m

  pub insert-IsMap : (k : Str) (v : V) (m : Dict V) → IsMap m → IsMap (insert k v m)
  unfolding insert
  insert-IsMap k v [] h = (unfold lookup in refl, tt)
  insert-IsMap k v ((j, w) ∷ m) h = elim (eq-cases j k) [
    | inl e ↦ rw (e, insert, eq_refl) (rw e at h.0, h.1)
    | inr e ↦ rw (insert, e) (rw (lookup-insert, ne_swap j k e) h.0, insert-IsMap k v m h.1)
  ]

  pub delete-IsMap : (k : Str) (m : Dict V) → IsMap m → IsMap (delete k m)
  unfolding delete
  delete-IsMap k [] h = h
  delete-IsMap k ((j, w) ∷ m) h = elim (Bool-cases (j == k)) [
    | inl e ↦ rw e (delete-IsMap k m h.1)
    | inr e ↦
        let missing : lookup j (delete k m) ≡ none = lookup-delete k j m ∙ rw (ne_swap j k e) h.0 in
        rw e (missing, delete-IsMap k m h.1)
  ]

pub ruleset dict_laws = (lookup-insert, lookup-delete)
