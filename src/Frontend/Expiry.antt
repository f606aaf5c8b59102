-- ===== src/Frontend/Expiry.antt =====
-- How long a listing stays in the cache.
use rufs.Base.{
  ℕ, ◌-◌, ◌≡◌, refl, sym, ◌∙◌, ap, ap₂, subst, lookup-insert_self, Option, none, some, Bool, true,
  false, Bool-cases, eq-cases, eq_refl, inl, inr, Str, trim_slashes, ◌==◌, Dict, [], ◌∷◌, lookup,
  insert, dict_laws, IsMap, insert-IsMap, delete-IsMap, leb, if◌then◌else◌, ok,
}
use rufs.Frontend.{DirReply, Frontend, Remote, purge_one, purge_all, tick, get_dir_cached}

abbrev aged : Option ℕ → Option ℕ
aged none = none
aged (some e) = if leb e 1 then none else some (e - 1)

abbrev kept : Option ℕ → Option DirReply → Option DirReply
kept none r = r
kept (some e) r = if leb e 1 then none else r

if_same : (b : Bool) (r : Option DirReply) → (if b then r else r) ≡ r
if_same true r = refl
if_same false r = refl

abbrev aged_or : Option ℕ → Option ℕ → Option ℕ
aged_or none x = x
aged_or (some e) x = aged (some e)

module _ (k dn : Str) (exp : ℕ) (f : Frontend) where
  expiry-purge_one :
      lookup k (purge_one dn exp f).cache_expiry
      ≡ (if dn == k then aged (some exp) else lookup k f.cache_expiry)
  unfolding purge_one
  expiry-purge_one = elim (Bool-cases (leb exp 1)) [
    | inl e ↦ rw (e, purge_one) (simp dict_laws)
    | inr e ↦ rw (e, purge_one) (simp dict_laws)
  ]

  cache-purge_one :
      lookup k (purge_one dn exp f).cache
      ≡ (if dn == k then kept (some exp) (lookup k f.cache) else lookup k f.cache)
  unfolding purge_one
  cache-purge_one = elim (Bool-cases (leb exp 1)) [
    | inl e ↦ rw (e, purge_one) (simp dict_laws)
    | inr e ↦ rw (e, purge_one) (sym (if_same (dn == k) _))
  ]

expiry-purge_all :
    (k : Str) (es : Dict ℕ) (f : Frontend)
    → IsMap es
    → lookup k (purge_all es f).cache_expiry ≡ aged_or (lookup k es) (lookup k f.cache_expiry)
unfolding purge_all lookup
expiry-purge_all k [] f h = refl
expiry-purge_all k ((dn, exp) ∷ es) f h = elim (eq-cases dn k) [
  | inl e ↦
      let missing : lookup k es ≡ none = rw e at h.0 in
      expiry-purge_all k es (purge_one dn exp f) h.1
      ∙ rw (missing, expiry-purge_one, e, eq_refl) refl
  | inr e ↦ expiry-purge_all k es (purge_one dn exp f) h.1 ∙ rw (expiry-purge_one, e) refl
]

cache-purge_all :
    (k : Str) (es : Dict ℕ) (f : Frontend)
    → IsMap es
    → lookup k (purge_all es f).cache ≡ kept (lookup k es) (lookup k f.cache)
unfolding purge_all lookup
cache-purge_all k [] f h = refl
cache-purge_all k ((dn, exp) ∷ es) f h = elim (eq-cases dn k) [
  | inl e ↦
      let missing : lookup k es ≡ none = rw e at h.0 in
      cache-purge_all k es (purge_one dn exp f) h.1 ∙ rw (missing, cache-purge_one, e, eq_refl) refl
  | inr e ↦ cache-purge_all k es (purge_one dn exp f) h.1 ∙ rw (cache-purge_one, e) refl
]

purge_all-IsMap :
    (es : Dict ℕ) (f : Frontend) → IsMap f.cache_expiry → IsMap (purge_all es f).cache_expiry
unfolding purge_all
purge_all-IsMap [] f h = h
purge_all-IsMap ((dn, exp) ∷ es) f h = purge_all-IsMap es (purge_one dn exp f) (one dn exp f h)
  where
    one :
        (dn : Str) (exp : ℕ) (f : Frontend)
        → IsMap f.cache_expiry
        → IsMap (purge_one dn exp f).cache_expiry
    one dn exp f h = elim (Bool-cases (leb exp 1)) [
      | inl e ↦ rw (purge_one, e) (delete-IsMap dn f.cache_expiry h)
      | inr e ↦ rw (purge_one, e) (insert-IsMap dn (exp - 1) f.cache_expiry h)
    ]

-- A tick lowers the count of every listing by one and drops those whose count was one.
pub tick_lem :
    (k : Str) (f : Frontend)
    → IsMap f.cache_expiry
    → (lookup k (tick f).cache_expiry ≡ aged (lookup k f.cache_expiry))
      × (lookup k (tick f).cache ≡ kept (lookup k f.cache_expiry) (lookup k f.cache))
      × IsMap (tick f).cache_expiry
unfolding tick
tick_lem k f h = (
  expiry-purge_all k f.cache_expiry f h ∙ same (lookup k f.cache_expiry),
  cache-purge_all k f.cache_expiry f h,
  purge_all-IsMap f.cache_expiry f h,
)
  where
    same : (o : Option ℕ) → aged_or o o ≡ aged o
    same none = refl
    same (some e) = refl

filled :
    (get_dir : Remote DirReply) (dn : Str) (r : DirReply) (f : Frontend)
    → lookup (trim_slashes dn) f.cache ≡ none
    → get_dir (trim_slashes dn) ≡ ok r
    → get_dir_cached get_dir dn f ≡ (
      record {
        cache = insert (trim_slashes dn) r f.cache;
        cache_expiry = insert (trim_slashes dn) 3 f.cache_expiry;
      },
      ok r,
    )
unfolding get_dir_cached
filled get_dir dn r f miss answer = rw (miss, get_dir_cached) (rw answer refl)

-- A listing that was fetched is in the cache through two ticks of the purger, and gone with the
-- third.
pub three_ticks :
    (get_dir : Remote DirReply) (dn : Str) (r : DirReply) (f : Frontend)
    → IsMap f.cache_expiry
    → lookup (trim_slashes dn) f.cache ≡ none
    → get_dir (trim_slashes dn) ≡ ok r
    → (lookup (trim_slashes dn) (tick (tick (get_dir_cached get_dir dn f).0)).cache ≡ some r)
      × (lookup (trim_slashes dn) (tick (tick (tick (get_dir_cached get_dir dn f).0))).cache ≡ none)
three_ticks get_dir dn r f h miss answer =
    let k = trim_slashes dn in
    let f₀ : Frontend = record {
      cache = insert k r f.cache;
      cache_expiry = insert k 3 f.cache_expiry;
    } in
    let (e₁, c₁, m₁) = tick_lem k f₀ (insert-IsMap k 3 f.cache_expiry h) in
    let (e₂, c₂, m₂) = tick_lem k (tick f₀) m₁ in
    let (e₃, c₃, m₃) = tick_lem k (tick (tick f₀)) m₂ in
    let x₀ = lookup-insert_self k 3 f.cache_expiry in
    let x₁ = e₁ ∙ ap aged x₀ in
    let x₂ = e₂ ∙ ap aged x₁ in
    let y₁ = c₁ ∙ ap₂ kept x₀ (lookup-insert_self k r f.cache) in
    let y₂ = c₂ ∙ ap₂ kept x₁ y₁ in
    let y₃ = c₃ ∙ ap₂ kept x₂ y₂ in
    subst
      (λ g.
        (lookup k (tick (tick g)).cache ≡ some r) × (lookup k (tick (tick (tick g))).cache ≡ none))
      (sym (ap (λ p. p.0) (filled get_dir dn r f miss answer))) (y₂, y₃)
