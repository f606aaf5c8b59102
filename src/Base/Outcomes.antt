-- ===== src/Base/Outcomes.antt =====
-- Results of Go functions: a value, an error that is returned, or a run-time panic. No goroutine
-- of the program recovers from a panic, so a panic ends the process and leaves no state.
use mathlib.Core.Path.{◌≡◌, refl, ap}
use Prim.Native.Nat.{ℕ}
use mathlib.Core.Bool.{Bool, true, false}
use rufs.Base.Tests.{if◌then◌else◌}
use rufs.Base.Text.{Str}

pub data Error : Type 0 where
  enoent eperm enosys eintr eof interrupted : Error
  no_peer : Error
  token_invalid sign_failed : Error
  protocol_not_supported invalid_credentials no_certificate user_mismatch : Error
  connect_back_failed ping_failed : Error
  denied_before_signin : Error
  file_not_found not_a_directory read_only : Error
  duplicate_share : Error
  shutdown reconnect_failed : Error
  invalid_part : Str → Error
  other_error : ℕ → Error

pub data Result {ℓ} (A : Type ℓ) : Type ℓ where
  ok : A → Result A
  err : Error → Result A
  panic : Result A

-- The value of a result.
abbrev pub value_or {ℓ} : {A : Type ℓ} → A → Result A → A
value_or d (ok a) = a
value_or d (err e) = d
value_or d panic = d

pub ok_injective {ℓ} : {A : Type ℓ} {a b : A} → ok a ≡ ok b → a ≡ b
ok_injective {a} e = ap (value_or a) e

infixl 5 ◌>>=◌ ◌>>◌
abbrev pub ◌>>=◌ {ℓ κ} : {A : Type ℓ} {B : Type κ} → Result A → (A → Result B) → Result B
ok value >>= next = next value
err e >>= next = err e
panic >>= next = panic

abbrev pub ◌>>◌ {ℓ} : {B : Type ℓ} → Result (Unit {0}) → Result B → Result B
m >> k = m >>= λ _. k

-- Inversion of a bind that returns.
pub >>=-eq-ok {ℓ κ} :
    {A : Type ℓ} {B : Type κ} (first : Result A) (next : A → Result B) {out : B}
    → (first >>= next) ≡ ok out
    → (mid : A) × (first ≡ ok mid) × (next mid ≡ ok out)
>>=-eq-ok panic next run = cc
>>=-eq-ok (err e) next run = cc
>>=-eq-ok (ok mid) next run = (mid, refl, run)

abbrev pub map_ok {ℓ κ} : {A : Type ℓ} {B : Type κ} → (A → B) → Result A → Result B
map_ok f (ok a) = ok (f a)
map_ok f (err e) = err e
map_ok f panic = panic

-- Inversion of a guard that let a call go on.
module _ {ℓ} {A : Type ℓ} where
  pub else_of_ok :
      (b : Bool) (e : Error) (m : Result A) {a : A}
      → (if b then err e else m) ≡ ok a
      → (b ≡ false) × (m ≡ ok a)
  else_of_ok true e m h = cc
  else_of_ok false e m h = (refl, h)

  pub then_of_ok :
      (b : Bool) (e : Error) (m : Result A) {a : A}
      → (if b then m else err e) ≡ ok a
      → (b ≡ true) × (m ≡ ok a)
  then_of_ok true e m h = (refl, h)
  then_of_ok false e m h = cc
