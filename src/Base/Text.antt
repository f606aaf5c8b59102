-- ===== src/Base/Text.antt =====
-- Go strings as lists of bytes, with what the program uses of package strings.
use Prim.Native.Nat.{ℕ}
use Prim.Native.Char.{code}
use Prim.Native.String.{String}
use mathlib.Core.Path.{◌≡◌, refl}
use mathlib.Core.Logic.{◌≢◌, ◌↔◌, ◌⊎◌, inl, inr}
use mathlib.Core.Bool.{Bool, true, false, ◌&&◌}
use mathlib.Core.List.{List, [], ◌∷◌, ◌++◌, reverse}
use native.Mathlib.Omega.{arith}
use rufs.Base.Tests.{Bool-cases, nat_eq, if◌then◌else◌}

abbrev pub Str : Type 0
Str = List ℕ

-- The bytes of an ASCII literal.
abbrev pub text : String → Str
text String.[] = []
text (String.◌∷◌ c s) = code c ∷ text s

-- The byte of the path separator.
abbrev pub slash : ℕ
slash = b'/'

infix 50 ◌==◌
unfoldable pub ◌==◌ : Str → Str → Bool
[] == [] = true
[] == (b ∷ t) = false
(a ∷ s) == [] = false
(a ∷ s) == (b ∷ t) = nat_eq a b && s == t

eq_sound : (s t : Str) → (s == t) ≡ true → s ≡ t
unfolding ◌==◌
eq_sound [] [] h = refl
eq_sound [] (b ∷ t) h = cc
eq_sound (a ∷ s) [] h = cc
eq_sound (a ∷ s) (b ∷ t) h = ground (arith, eq_sound s t)

eq_self : (s : Str) → (s == s) ≡ true
unfolding ◌==◌
eq_self [] = refl
eq_self (a ∷ s) = ground (arith, eq_self s)

pub eq_refl : (s : Str) → (s == s) ≡ true
eq_refl = eq_self

pub eq_iff : (s t : Str) → ((s == t) ≡ true) ↔ (s ≡ t)
eq_iff s t = (eq_sound s t, λ e. rw e (eq_self t))

pub ne_of_false : (s t : Str) → (s == t) ≡ false → s ≢ t
ne_of_false s t h e = cc (h, (eq_iff s t).1 e)

-- To split on whether two texts are equal.
pub eq-cases : (s t : Str) → (s ≡ t) ⊎ ((s == t) ≡ false)
eq-cases s t = elim (Bool-cases (s == t)) [ inl e ↦ inl (eq_sound s t e) | inr e ↦ inr e ]

-- strings.Split: the pieces between the separators; "" has the one piece "".
unfoldable pub split : ℕ → Str → List Str
split sep [] = [] ∷ []
split sep (c ∷ s) = elim (split sep s) [
  | [] ↦ [] ∷ []
  | p ∷ ps ↦ if nat_eq c sep then [] ∷ p ∷ ps else (c ∷ p) ∷ ps
]

-- strings.Join with a separator of one byte.
unfoldable pub join : ℕ → List Str → Str
join sep [] = []
join sep (p ∷ []) = p
join sep (p ∷ q ∷ ps) = p ++ sep ∷ join sep (q ∷ ps)

-- strings.HasPrefix
unfoldable pub has_prefix : Str → Str → Bool
has_prefix s [] = true
has_prefix [] (b ∷ p) = false
has_prefix (a ∷ s) (b ∷ p) = nat_eq a b && has_prefix s p

trim_left : Str → Str
trim_left [] = []
trim_left (c ∷ s) = if nat_eq c slash then trim_left s else c ∷ s

-- strings.Trim(s, "/")
unfoldable pub trim_slashes : Str → Str
unfolding trim_left
trim_slashes s = reverse (trim_left (reverse (trim_left s)))
