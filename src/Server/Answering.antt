-- ===== src/Server/Answering.antt =====
-- A read from one end to the other: the fetcher of one participant (fetch.go) asks the servers of
-- others (server.go) for the blocks of a file, and each of them reads its disk.
mod Tests
use rufs.Base.{
  ℕ, ◌+◌, ◌*◌, ◌≤◌, ◌<◌, ◌≡◌, refl, sym, ◌∙◌, List, [], ◌∷◌, Option, none, some, Option-cases, ◌⊎◌,
  inl, inr, Str, Dict, lookup, take, drop, length, Error, no_peer, Result, ok, err, panic, ◌>>=◌,
  enoent, arith,
}
use rufs.Fuse.{join_path}
use rufs.Fetch.{Bytes, Fetcher, Handle, real_fetch}
use rufs.Fetch.Read
use rufs.Fetch.Blocks.{block}
use rufs.Fetch.Steady.{IsSteady}
use rufs.Fetch.Reading.{read-content}
use rufs.Server
use rufs.Server.{Server, PathSet, set_or_empty, split_share_path, str_or_empty, open_first}

-- A participant that is asked: its server, and what opening a path of its disk gives.
pub record Participant : Type 0 where
  pub server : Server
  pub open_path : Str → Result Bytes

-- What its server's `Read` gets when it opens an entry of a hash.
abbrev pub IsOpened : Participant → Str → Result Bytes → Type 0
IsOpened p spp r =
    (share : Str) × (path : Str) × (split_share_path spp ≡ ok (share, path))
    × (p.open_path (join_path (str_or_empty (lookup share p.server.shares)) path) ≡ r)

-- Of the paths of a hash the first that opens has the content.
abbrev pub IsServable : Participant → Bytes → PathSet → Type 0
IsServable p content [] = ⊥
IsServable p content ((spp, u) ∷ ps) =
    IsOpened p spp (ok content) ⊎ (((e : Error) × IsOpened p spp (err e)) × IsServable p content ps)

-- The call of `Read` that reaches a participant's server.
abbrev pub asks : (Str → Participant) → Str → Str → ℕ → ℕ → Result Bytes
asks who ident hash offset size =
    Server.read (who ident).open_path hash offset size (who ident).server

-- Of the peers of a handle the first that is connected and answers without an error has the content.
abbrev pub IsAnswered : (Str → Participant) → Dict (Unit {0}) → Str → Bytes → List Str → Type 0
IsAnswered who known hash content [] = ⊥
IsAnswered who known hash content (p ∷ ps) =
    ((lookup p known ≡ some tt)
      × IsServable (who p) content (set_or_empty (lookup hash (who p).server.hash_to_path)))
    ⊎ (((lookup p known ≡ none)
          ⊎ ((e : Error) × ((offset size : ℕ) → asks who p hash offset size ≡ err e)))
        × IsAnswered who known hash content ps)

open_first-content :
    (p : Participant) (content : Bytes) (ps : PathSet) (last : Result Bytes)
    → IsServable p content ps
    → open_first p.open_path p.server.shares ps last ≡ ok content
unfolding open_first
open_first-content p content [] last h = absurd h
open_first-content p content ((spp, u) ∷ ps) last (inl (share, path, s, o)) =
    rw (open_first, s, o) refl
open_first-content p content ((spp, u) ∷ ps) last (inr ((e, (share, path, s, o)), h)) =
    rw (open_first, s, o) (open_first-content p content ps (err e) h)

serves :
    (p : Participant) (hash : Str) (content : Bytes) (ps : PathSet) (offset size : ℕ)
    → set_or_empty (lookup hash p.server.hash_to_path) ≡ ps
    → IsServable p content ps
    → Server.read p.open_path hash offset size p.server ≡ ok (take size (drop offset content))
unfolding Server.read
serves p hash content [] offset size e h = absurd h
serves p hash content (q ∷ ps) offset size e h =
    rw (Server.read, e, open_first-content p content (q ∷ ps) (err enoent) h) refl

real_fetch-content :
    (who : Str → Participant) (known : Dict (Unit {0})) (hash : Str) (content : Bytes)
    (offset size : ℕ) (last : Error) (ps : List Str)
    → IsAnswered who known hash content ps
    → real_fetch (asks who) known hash offset size last ps ≡ ok (take size (drop offset content))
unfolding real_fetch
real_fetch-content who known hash content offset size last [] h = absurd h
real_fetch-content who known hash content offset size last (p ∷ ps) (inl (e, h)) =
    rw
      (
        real_fetch,
        e,
        serves (who p) hash content (set_or_empty (lookup hash (who p).server.hash_to_path)) offset
            size refl h,
      )
      refl
real_fetch-content who known hash content offset size last (p ∷ ps) (inr (inl e, h)) =
    rw (real_fetch, e) (real_fetch-content who known hash content offset size last ps h)
real_fetch-content who known hash content offset size last (p ∷ ps) (inr (inr (x, e), h)) =
    elim (Option-cases (lookup p known)) [
      | inl n ↦ rw (real_fetch, n) (real_fetch-content who known hash content offset size last ps h)
      | inr (c, n) ↦
          rw (real_fetch, n, e offset size)
            (real_fetch-content who known hash content offset size x ps h)
    ]

-- A read of one or more bytes that lies inside the file, on a steady handle with nothing else at
-- work on it, whose blocks come from the servers of its peers: where the first of them that is
-- connected and answers without an error has the content of the file at the first path of its hash
-- that opens, the read returns exactly the bytes that were asked for, and leaves the handle
-- steady.
pub read-served :
    (f : Fetcher) (who : Str → Participant) (content : Bytes) (offset size : ℕ) (h : Handle)
    → 0 < f.block_size
    → 0 < size
    → offset + size ≤ length content
    → IsSteady f.block_size content h
    → IsAnswered who f.peers h.hash content h.peers
    → (h' : Handle) × (Read.read f
          (λ b.
            real_fetch (asks who) f.peers h.hash (b * f.block_size) f.block_size no_peer h.peers)
          offset
          size
          h
        ≡ ok (h', ok (take size (drop offset content))))
      × IsSteady f.block_size content h'
read-served f who content offset size h p q inside s a =
    read-content f content _ offset size h p q inside
      (λ b.
        real_fetch-content who f.peers h.hash content (b * f.block_size) f.block_size no_peer
          h.peers a)
      s
