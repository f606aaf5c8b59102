-- ===== src/Fetch.antt =====
-- fetch.go: a file is read in blocks that are fetched from its owners and cached in the handle.
pub mod Read
pub mod Slices
pub mod Assemble
pub mod Blocks
pub mod Steady
pub mod Opening
pub mod Requests
pub mod Settling
pub mod Reading
pub mod Bounds
pub mod Stream
pub mod Draining
pub mod Overlap
pub mod Sharing
mod Tests
use rufs.Base.{
  ℕ, zero, suc, ◌+◌, ◌-◌, ◌*◌, ◌/◌, ◌%◌, ◌^◌, List, [], ◌∷◌, ◌++◌, Option, none, some, Bool, true,
  false, ◌&&◌, Str, split, Dict, lookup, insert, length, take, drop, replicate, set, get_elem?, ltb,
  leb, if◌then◌else◌, Error, no_peer, Result, ok, err, panic, ◌>>=◌,
}

abbrev pub Bytes : Type 0
Bytes = List ℕ

-- A channel of `active`: nil, made, or closed.
pub data Chan : Type 0 where
  idle running closed : Chan

-- `Fetcher`; of a peer's client only that it is there is kept.
pub record Fetcher : Type 0 where
  pub peers : Dict (Unit {0})
  pub block_size : ℕ
  pub prefetch_blocks : ℕ

pub record Handle : Type 0 where
  pub hash : Str
  pub size : ℕ
  pub peers : List Str
  pub cache : List (Option Bytes)
  pub active : List Chan
  pub last_err : Option Error

-- `GetFetcher`: `1 << *fetchBlockSizePower`.
unfoldable pub new_fetcher : ℕ → ℕ → Fetcher
new_fetcher power prefetch = record {
  peers = [];
  block_size = 2 ^ power;
  prefetch_blocks = prefetch;
}

-- `NewPeer`; `connects` is whether a client of an address, with a server name, can be made.
unfoldable pub new_peer : (Str → Str → Bool) → Str → Result Bool
new_peer connects ident = elim (split b'@' ident) [
  | [] ↦ panic
  | u ∷ rest ↦ elim rest [ [] ↦ panic | addr ∷ more ↦ ok (connects addr u) ]
]

-- The loop over the peers in `NewHandle`, with the variable `found`.
unfoldable pub find_peers :
    (Str → Str → Bool) → List Str → Bool → Dict (Unit {0}) → Result (Dict (Unit {0}) × Bool)
unfolding new_peer
find_peers connects [] found known = ok (known, found)
find_peers connects (p ∷ ps) found known = elim (lookup p known) [
  | some c ↦ find_peers connects ps true known
  | none ↦ elim (new_peer connects p) [
    | ok made ↦ elim made [
      | true ↦ find_peers connects ps true (insert p tt known)
      | false ↦ find_peers connects ps found known
    ]
    | err e ↦ err e
    | panic ↦ panic
  ]
]

unfoldable pub new_handle :
    (Str → Str → Bool) → Str → ℕ → List Str → Fetcher → Result (Fetcher × Result Handle)
unfolding find_peers
new_handle connects hash size peers f = do
  (known, found) ← find_peers connects peers false f.peers
  let blocks = size / f.block_size + 1
  ok (
    record f { peers = known },
    if found
        then ok (record {
          hash = hash;
          size = size;
          peers = peers;
          cache = replicate blocks none;
          active = replicate blocks idle;
          last_err = none;
        })
        else err no_peer,
  )

-- `realFetch`: the first answer of a connected peer, or the last error. `reads` is the call of a
-- peer's client with a hash, an offset and a size.
unfoldable pub real_fetch :
    (Str → Str → ℕ → ℕ → Result Bytes)
    → Dict (Unit {0})
    → Str
    → ℕ
    → ℕ
    → Error
    → List Str
    → Result Bytes
real_fetch reads known hash offset size last [] = err last
real_fetch reads known hash offset size last (p ∷ ps) = elim (lookup p known) [
  | none ↦ real_fetch reads known hash offset size last ps
  | some c ↦ elim (reads p hash offset size) [
    | ok buf ↦ ok buf
    | err e ↦ real_fetch reads known hash offset size e ps
    | panic ↦ panic
  ]
]

-- `fetch`, up to the start of its goroutine.
unfoldable pub fetch : ℕ → Handle → Handle
fetch b h = record h { active = set h.active b running }

-- `ret.Data`: encoding/gob sends no empty slice, so it is nil then.
abbrev pub non_nil : Bytes → Option Bytes
non_nil [] = none
non_nil (x ∷ buf) = some (x ∷ buf)

-- The end of the goroutine of `fetch`. Where `realFetch` panics there is no end: the process stops
-- with the handle as it is.
unfoldable pub fetched : ℕ → Result Bytes → Handle → Handle
fetched b (ok buf) h = record h {
  cache = set h.cache b (non_nil buf);
  active = set h.active b closed;
}
fetched b (err e) h = record h { last_err = some e; active = set h.active b closed }
fetched b panic h = h
