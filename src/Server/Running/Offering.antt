-- ===== src/Server/Running/Offering.antt =====
-- What the server offers while changes, exports and other shares go on in any order.
use rufs.Base.{
  ◌≡◌, refl, sym, ◌∙◌, subst, subst₂, [], ◌∷◌, ◌++◌, Option, none, some, true, false, ◌⊎◌, inl, inr,
  eq-cases, eq_refl, eq_iff, Str, ◌==◌, Dict, lookup, arith,
}
use mathlib.Core.Option.{some-injective}
use rufs.Common.{FileInfo}
use rufs.Scanner.{info_or_zero, put_or_delete}
use rufs.Server.{Server, share_plus_path, set_file}
use rufs.Server.Offers.{offers, offers-set_file, prefix_eq, lookup-put_or_delete}
use rufs.Server.Running.{
  is_clean, Running, start_running, Step, changes, changes_unheard, cancels, leaves_out, starts,
  exports, exports_stale, others, Reach, started, later,
}

clean_apart :
    (s t p q : Str)
    → is_clean s ≡ true
    → is_clean t ≡ true
    → (s == t) ≡ false
    → (share_plus_path s p == share_plus_path t q) ≡ false
unfolding is_clean ◌==◌
clean_apart [] [] p q h k e = cc
clean_apart [] (b ∷ t) p q h k e = ground arith
clean_apart (a ∷ s) [] p q h k e = ground arith
clean_apart (a ∷ s) (b ∷ t) p q h k e = ground (arith, clean_apart s t p q)

module _ (share : Str) where
  -- An entry that an export has still to send.
  abbrev IsPending : Str → FileInfo → Dict FileInfo → Type 0
  IsPending k fi [] = ⊥
  IsPending k fi ((j, f) ∷ m) = ((j ≡ k) × (f ≡ fi)) ⊎ IsPending k fi m

  -- One entry is taken out.
  IsPending-without :
      (k path : Str) (fi info : FileInfo) (m n : Dict FileInfo)
      → IsPending k fi (m ++ (path, info) ∷ n)
      → ((path ≡ k) × (info ≡ fi)) ⊎ IsPending k fi (m ++ n)
  IsPending-without k path fi info [] n h = h
  IsPending-without k path fi info ((j, f) ∷ m) n (inl h) = inr (inl h)
  IsPending-without k path fi info ((j, f) ∷ m) n (inr h) =
      elim (IsPending-without k path fi info m n h) [ inl e ↦ inl e | inr p ↦ inr (inr p) ]

  lookup-IsPending :
      (k : Str) (fi : FileInfo) (m : Dict FileInfo) → lookup k m ≡ some fi → IsPending k fi m
  unfolding lookup
  lookup-IsPending k fi [] e = cc
  lookup-IsPending k fi ((j, f) ∷ m) e = elim (eq-cases j k) [
    | inl s ↦
        let here : some f ≡ some fi = rw (s, eq_refl) at e in inl (s, some-injective f fi here)
    | inr n ↦ inr (lookup-IsPending k fi m (rw n at e))
  ]

  abbrev IsOffered : Str → FileInfo → Server → Type 0
  IsOffered k fi s = offers fi.hash (share_plus_path share k) s.hash_to_path ≡ true

  -- While the context is live, each file of the cache is offered or about to be.
  abbrev IsServing : Running → Type 0
  IsServing r =
      r.is_live ≡ true
      → (k : Str) (fi : FileInfo) → lookup k r.cache ≡ some fi
      → IsOffered k fi r.server ⊎ IsPending k fi r.pending

  set_here :
      (path : Str) (fi : FileInfo) (old : Option FileInfo) (s : Server)
      → IsOffered path fi (set_file share path (some fi) old s)
  set_here path fi old s =
      offers-set_file share path (some fi) old s fi.hash (share_plus_path share path)
      ∙ rw (eq_refl, eq_refl) refl

  set_other :
      (path k h : Str) (info old : Option FileInfo) (s : Server)
      → (path == k) ≡ false
      → offers h (share_plus_path share k) (set_file share path info old s).hash_to_path
        ≡ offers h (share_plus_path share k) s.hash_to_path
  set_other path k h info old s e =
      offers-set_file share path info old s h (share_plus_path share k)
      ∙ rw (prefix_eq, e) (ground arith)

  set_more :
      (path k : Str) (info f : FileInfo) (s : Server)
      → IsOffered k f s
      → IsOffered k f (set_file share path (some info) none s)
  set_more path k info f s h =
      offers-set_file share path (some info) none s f.hash (share_plus_path share k)
      ∙ rw h (ground arith)

  set_elsewhere :
      (other path k h : Str) (info old : Option FileInfo) (s : Server)
      → is_clean other ≡ true
      → is_clean share ≡ true
      → (other == share) ≡ false
      → offers h (share_plus_path share k) (set_file other path info old s).hash_to_path
        ≡ offers h (share_plus_path share k) s.hash_to_path
  set_elsewhere other path k h info old s c d e =
      offers-set_file other path info old s h (share_plus_path share k)
      ∙ rw (clean_apart other share path k c d e) (ground arith)

  moves :
      (r : Running) (path : Str) (info : Option FileInfo)
      → IsServing r
      → r.is_live ≡ true
      → (k : Str) (fi : FileInfo) → lookup k (put_or_delete path info r.cache) ≡ some fi
      → IsOffered k fi
          (set_file share path info (some (info_or_zero (lookup path r.cache))) r.server)
        ⊎ IsPending k fi r.pending
  moves r path info h live k fi e = elim (eq-cases path k) [
    | inl s ↦
        let there : info ≡ some fi =
          sym (lookup-put_or_delete path k info r.cache ∙ rw ((eq_iff path k).1 s) refl) ∙ e in
        let old = some (info_or_zero (lookup path r.cache)) in
        inl (
          subst (λ j. IsOffered j fi (set_file share path info old r.server)) s
            (subst (λ i. IsOffered path fi (set_file share path i old r.server)) (sym there)
              (set_here path fi old r.server)))
    | inr n ↦
        let was : lookup k r.cache ≡ some fi =
          sym (lookup-put_or_delete path k info r.cache ∙ rw n refl) ∙ e in
        elim (h live k fi was) [
          | inl o ↦ inl (set_other path k fi.hash info _ r.server n ∙ o)
          | inr p ↦ inr p
        ]
  ]

  sends :
      (r : Running) (before after : Dict FileInfo) (path : Str) (info : FileInfo)
      → r.pending ≡ before ++ (path, info) ∷ after
      → (k : Str) (fi : FileInfo) → IsOffered k fi r.server ⊎ IsPending k fi r.pending
      → IsOffered k fi (set_file share path (some info) none r.server)
        ⊎ IsPending k fi (before ++ after)
  sends r before after path info e k fi (inl o) = inl (set_more path k info fi r.server o)
  sends r before after path info e k fi (inr p) =
      elim (IsPending-without k path fi info before after (subst (IsPending k fi) e p)) [
        | inr q ↦ inr q
        | inl (j, f) ↦ inl (
            subst₂ (λ j f. IsOffered j f (set_file share path (some info) none r.server)) j f
              (set_here path info none r.server))
      ]

  Step-IsServing :
      {r t : Running} → is_clean share ≡ true → Step share r t → IsServing r → IsServing t
  Step-IsServing {r} c (changes path info live) h = λ l k fi e. moves r path info h live k fi e
  Step-IsServing {r} c (changes_unheard path info dead) h = λ l k fi e. cc
  Step-IsServing {r} c cancels h = λ l k fi e. cc
  Step-IsServing {r} c (leaves_out before after path info e) h = h
  Step-IsServing {r} c starts h = λ l k fi e. inr (lookup-IsPending k fi r.cache e)
  Step-IsServing {r} c (exports before after path info e) h =
      λ l k fi i. sends r before after path info e k fi (h l k fi i)
  Step-IsServing {r} c (exports_stale before after path info e) h = λ l k fi i. elim (h l k fi i) [
    | inl o ↦ inl (set_more path k info fi r.server o)
    | inr p ↦ inr p
  ]
  Step-IsServing {r} c (others other path info old d n) h = λ l k fi e. elim (h l k fi e) [
    | inl o ↦ inl (set_elsewhere other path k fi.hash info old r.server d c n ∙ o)
    | inr p ↦ inr p
  ]

  reach-IsServing :
      {shares : Dict Str} {r : Running} → is_clean share ≡ true → Reach share shares r → IsServing r
  unfolding start_running
  reach-IsServing c started = λ l k fi e. cc
  reach-IsServing c (later reach st) = Step-IsServing c st (reach-IsServing c reach)

-- However the changes of a share, its exports, their cancelling and starting again, and the calls
-- of other shares with other names follow each other: while the context of the last export is not
-- done and that export has nothing left to send, even if those before it have, each file in the
-- cache of the share's scanner is offered under its path and its hash. Names of shares have no
-- zero byte.
pub reach_offers :
    (share : Str) (shares : Dict Str) (r : Running) (k : Str) (fi : FileInfo)
    → is_clean share ≡ true
    → Reach share shares r
    → r.is_live ≡ true
    → r.pending ≡ []
    → lookup k r.cache ≡ some fi
    → offers fi.hash (share_plus_path share k) r.server.hash_to_path ≡ true
reach_offers share shares r k fi c reach live e is =
    elim (reach-IsServing share c reach live k fi is) [
      | inl o ↦ o
      | inr p ↦ absurd (subst (IsPending share k fi) e p)
    ]
