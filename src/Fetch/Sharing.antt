-- ===== src/Fetch/Sharing.antt =====
-- fetch.go: the fetcher that the front ends of a server share, and the latency of a peer.
use rufs.Base.{
  ℕ, ◌-◌, ◌≡◌, ◌∙◌, ap, ok_injective, refl, List, [], ◌∷◌, Option, none, some, true, nat_eq,
  if◌then◌else◌, Result, ok, err, panic, arith,
}
use rufs.Fetch.{Fetcher, new_fetcher}

-- `fetchers`; a server is known by a number.
abbrev pub Fetchers : Type 0
Fetchers = List (ℕ × Fetcher)

unfoldable pub fetcher_of : ℕ → Fetchers → Option Fetcher
fetcher_of server [] = none
fetcher_of server ((s, f) ∷ fs) = if nat_eq s server then some f else fetcher_of server fs

-- The fetcher that is there, or a new one.
unfoldable pub fetcher_or_new :
    ℕ → ℕ → ℕ → Fetchers → Option Fetcher → Result ℕ → Result (Fetchers × Result Fetcher)
unfolding new_fetcher
fetcher_or_new power prefetch server fs (some f) cache_size = ok (fs, ok f)
fetcher_or_new power prefetch server fs none (err e) = ok (fs, err e)
fetcher_or_new power prefetch server fs none panic = panic
fetcher_or_new power prefetch server fs none (ok size) =
    let f = new_fetcher power prefetch in ok ((server, f) ∷ fs, ok f)

-- `GetFetcher` with the flags; `cache_size` is what humanize.ParseBytes gives for
-- --local_cache_size. The directory and the size of the local cache are kept, and not used.
unfoldable pub get_fetcher : Result ℕ → ℕ → ℕ → ℕ → Fetchers → Result (Fetchers × Result Fetcher)
unfolding fetcher_of fetcher_or_new
get_fetcher cache_size power prefetch server fs =
    fetcher_or_new power prefetch server fs (fetcher_of server fs) cache_size

same_pair :
    {fs fs' : Fetchers} {f g : Fetcher}
    → Path (Result (Fetchers × Result Fetcher)) (ok (fs, ok f)) (ok (fs', ok g))
    → (fs ≡ fs') × (f ≡ g)
same_pair e = let z = ok_injective e in (ap (λ p. p.0) z, ok_injective (ap (λ p. p.1) z))

fetched_before :
    (a : Result ℕ) (power prefetch server : ℕ) (o : Option Fetcher) (fs fs' : Fetchers)
    (f : Fetcher)
    → fetcher_of server fs ≡ o
    → fetcher_or_new power prefetch server fs o a ≡ ok (fs', ok f)
    → fetcher_of server fs' ≡ some f
unfolding fetcher_or_new fetcher_of
fetched_before a power prefetch server (some g) fs fs' f e run =
    let (s, t) = same_pair run in rw (← s) (e ∙ ap some t)
fetched_before (ok size) power prefetch server none fs fs' f e run =
    let (s, t) = same_pair run in
    let here : nat_eq server server ≡ true = ground arith in rw (← s, here) (ap some t)
fetched_before (err x) power prefetch server none fs fs' f e run = cc
fetched_before panic power prefetch server none fs fs' f e run = cc

-- Once a server has a fetcher, every call for it gives the same one, and changes nothing, whatever
-- the flags.
get_fetcher_again :
    (a b : Result ℕ) (power power' prefetch prefetch' server : ℕ) (fs fs' : Fetchers) (f : Fetcher)
    → get_fetcher a power prefetch server fs ≡ ok (fs', ok f)
    → get_fetcher b power' prefetch' server fs' ≡ ok (fs', ok f)
unfolding get_fetcher fetcher_or_new
get_fetcher_again a b power power' prefetch prefetch' server fs fs' f run =
    rw (fetched_before a power prefetch server (fetcher_of server fs) fs fs' f refl run) refl

-- `pfPeer`, of whose client only that it is there is kept.
pub record PeerState : Type 0 where
  pub ident : List ℕ
  pub latency : Option ℕ

-- `MeasureLatency`: the results of the two pings, and the times before and after the second one.
unfoldable pub measure_latency :
    Result (Unit {0}) → Result (Unit {0}) → ℕ → ℕ → PeerState → PeerState × Result (Unit {0})
measure_latency first second before after r = elim first [
  | err e ↦ (record r { latency = none }, err e)
  | panic ↦ (r, panic)
  | ok u ↦ elim second [
    | err e ↦ (record r { latency = none }, err e)
    | panic ↦ (r, panic)
    | ok v ↦ (record r { latency = some (after - before) }, ok tt)
  ]
]
