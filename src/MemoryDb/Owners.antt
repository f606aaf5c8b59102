-- ===== src/MemoryDb/Owners.antt =====
-- The table of owners: what a release and an addition change.
use rufs.Base.{
  Bool, List, [], ◌∷◌, keys, lookup-insert_self, ◌≡◌, refl, true, false, ℤ, increment, decrement,
  is_zero, Str, ◌==◌, eq-cases, eq_refl, lookup, insert, delete, contains, contains-insert,
  dict_laws, lookup-insert, sym, zero, suc, pos, negsuc, Bool-cases, inl, inr, ◌&&◌, ◌||◌, Dict, ok,
  panic, arith, if◌then◌else◌,
}
use rufs.MemoryDb.{Owners, count_or_zero, map_or_empty, release_owner, add_owner}

-- How many files of a hash an owner has, by the table.
unfoldable pub count : Str → Str → Owners → ℤ
count hash owner ow = count_or_zero (lookup owner (map_or_empty (lookup hash ow)))

eq_zero : (n : ℤ) → is_zero n ≡ true → n ≡ pos 0
eq_zero (pos zero) h = refl
eq_zero (pos (suc n)) h = cc
eq_zero (negsuc n) h = cc

-- `m[owner]--` with the removal of a count of zero.
abbrev lowered : Str → Dict ℤ → Dict ℤ
lowered owner m =
    let n = decrement (count_or_zero (lookup owner m)) in
    if is_zero n then delete owner m else insert owner n m

module _ (owner o : Str) (m : Dict ℤ) where
  count-insert :
      count_or_zero (lookup o (insert owner (increment (count_or_zero (lookup owner m))) m))
      ≡ (if owner == o then increment (count_or_zero (lookup o m)) else count_or_zero (lookup o m))
  count-insert = elim (eq-cases owner o) [
    | inl e ↦ rw (← e) (simp (dict_laws, eq_refl))
    | inr e ↦ simp (dict_laws, e)
  ]

  count-lowered :
      count_or_zero (lookup o (lowered owner m))
      ≡ (if owner == o then decrement (count_or_zero (lookup o m)) else count_or_zero (lookup o m))
  count-lowered = elim (Bool-cases (is_zero (decrement (count_or_zero (lookup owner m))))) [
    | inl z ↦ rw z (elim (eq-cases owner o) [
      | inl e ↦ rw (← e) (simp (dict_laws, eq_refl) (sym (eq_zero _ z)))
      | inr e ↦ simp (dict_laws, e)
    ])
    | inr z ↦ rw z (elim (eq-cases owner o) [
      | inl e ↦ rw (← e) (simp (dict_laws, eq_refl))
      | inr e ↦ simp (dict_laws, e)
    ])
  ]

module _ (hash owner : Str) (ow : Owners) where
  pub contains-add_owner :
      (h : Str) → contains h (add_owner hash owner ow) ≡ (hash == h || contains h ow)
  unfolding add_owner
  contains-add_owner h = contains-insert hash h _ ow

  pub count-add_owner :
      (h o : Str)
      → count h o (add_owner hash owner ow)
        ≡ (if hash == h && owner == o then increment (count h o ow) else count h o ow)
  unfolding count add_owner
  count-add_owner h o = elim (eq-cases hash h) [
    | inl e ↦ rw (← e) (simp (lookup-insert {V = Dict ℤ}, eq_refl) (count-insert owner o _))
    | inr e ↦ simp (dict_laws, e)
  ]

-- The table after `release_owner`, where the hash has a map.
unfoldable pub released : Str → Str → Owners → Owners
released hash owner ow = insert hash (lowered owner (map_or_empty (lookup hash ow))) ow

module _ (hash owner : Str) (ow : Owners) where
  pub release_owner-released :
      contains hash ow ≡ true → release_owner hash owner ow ≡ ok (released hash owner ow)
  unfolding contains release_owner released
  release_owner-released c = ground arith

  pub release_owner_panics : contains hash ow ≡ false → release_owner hash owner ow ≡ panic
  unfolding contains release_owner
  release_owner_panics c = ground arith

  pub contains-released :
      (h : Str) → contains h (released hash owner ow) ≡ (hash == h || contains h ow)
  unfolding released
  contains-released h = contains-insert hash h _ ow

  pub count-released :
      (h o : Str)
      → count h o (released hash owner ow)
        ≡ (if hash == h && owner == o then decrement (count h o ow) else count h o ow)
  unfolding count released
  count-released h o = elim (eq-cases hash h) [
    | inl e ↦ rw (← e) (simp (lookup-insert, eq_refl) (count-lowered owner o _))
    | inr e ↦ simp (dict_laws, e)
  ]

-- Whether the table lists an owner under a hash.
abbrev pub is_listed : Str → Str → Owners → Bool
is_listed hash owner ow = contains owner (map_or_empty (lookup hash ow))

pub is_listed-add_owner :
    (hash owner : Str) (ow : Owners) → is_listed hash owner (add_owner hash owner ow) ≡ true
unfolding add_owner
is_listed-add_owner hash owner ow = rw (lookup-insert_self) (rw (contains-insert, eq_refl) refl)

-- Whether a list has a name.
abbrev pub has_name : Str → List Str → Bool
has_name n [] = false
has_name n (x ∷ xs) = x == n || has_name n xs

pub has_name-keys {ℓ} : {V : Type ℓ} (n : Str) (m : Dict V) → has_name n (keys m) ≡ contains n m
unfolding contains lookup
has_name-keys n [] = refl
has_name-keys n ((k, v) ∷ m) = ground (arith, has_name-keys n m)
