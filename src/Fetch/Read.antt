-- ===== src/Fetch/Read.antt =====
-- `Read` of a handle.
use rufs.Base.{
  ℕ, zero, suc, ◌+◌, ◌-◌, ◌*◌, ◌/◌, ◌%◌, List, [], ◌∷◌, ◌++◌, Option, none, some, Bool, true, false,
  ◌&&◌, length, take, drop, set, get_elem?, ltb, leb, if◌then◌else◌, Result, ok, err, panic, ◌>>=◌,
}
use rufs.Fetch.{Bytes, Chan, idle, running, closed, Fetcher, Handle, fetch, fetched}

-- The offsets of the blocks of a read: `n` of them from block `b` on.
unfoldable pub block_offsets : ℕ → ℕ → ℕ → List ℕ
block_offsets bs b zero = []
block_offsets bs b (suc n) = b * bs ∷ block_offsets bs (b + 1) n

-- How often the first loop of `Read` runs.
abbrev pub block_count : ℕ → ℕ → ℕ → ℕ
block_count bs offset size = (offset + size + bs - 1) / bs - offset / bs

-- The loop that starts what is missing, and the blocks that it waits for. A block beyond the
-- cache is out of range.
unfoldable pub request : ℕ → List ℕ → Handle → Result (Handle × List ℕ)
unfolding fetch
request bs [] h = ok (h, [])
request bs (o ∷ os) h = elim (get_elem? h.cache (o / bs)) [
  | none ↦ panic
  | some cached ↦ elim cached [
    | some buf ↦ request bs os h
    | none ↦ elim (get_elem? h.active (o / bs)) [
      | none ↦ panic
      | some c ↦ do
        (h', waits) ← request bs os (elim c [ idle ↦ fetch (o / bs) h | running ↦ h | closed ↦ h ])
        ok (h', o / bs ∷ waits)
    ]
  ]
]

abbrev pub is_cached : Option (Option Bytes) → Bool
is_cached none = false
is_cached (some none) = false
is_cached (some (some buf)) = true

-- The block before the first one is dropped, unless it is block 0.
unfoldable pub purge : ℕ → ℕ → Handle → Handle
purge bs first h =
    let b = first / bs - 1 in
    if ltb 0 b && is_cached (get_elem? h.cache b)
    then record h { cache = set h.cache b none; active = set h.active b idle }
    else h

-- One round of the prefetch loop; `b * bs < size` keeps it inside the cache.
unfoldable pub prefetch_one : ℕ → ℕ → Handle → Handle
unfolding fetch
prefetch_one bs b h =
    if ltb (b * bs) h.size
    then elim (get_elem? h.cache b) [
      | none ↦ h
      | some cached ↦ elim cached [
        | some buf ↦ h
        | none ↦ elim (get_elem? h.active b) [
          | none ↦ h
          | some c ↦ elim c [ idle ↦ fetch b h | running ↦ h | closed ↦ h ]
        ]
      ]
    ]
    else h

unfoldable pub prefetch : ℕ → ℕ → ℕ → Handle → Handle
unfolding prefetch_one
prefetch bs b zero h = h
prefetch bs b (suc n) h = prefetch bs (b + 1) n (prefetch_one bs b h)

abbrev pub last_or : ℕ → List ℕ → ℕ
last_or d [] = d
last_or d (x ∷ xs) = last_or x xs

-- `Read` up to the unlock before it waits: the blocks, and those to wait for. `blocks[0]` of no
-- blocks is out of range.
unfoldable pub begin_read : Fetcher → ℕ → ℕ → Handle → Result (Handle × List ℕ × List ℕ)
unfolding block_offsets request purge prefetch
begin_read f offset size h = do
  let bs = f.block_size
  let blocks = block_offsets bs (offset / bs) (block_count bs offset size)
  (h', waits) ← request bs blocks h
  elim blocks [
    | [] ↦ panic
    | first ∷ os ↦ ok (
      prefetch bs (last_or first os / bs + 1) f.prefetch_blocks (purge bs first h'),
      first ∷ os,
      waits,
    )
  ]

-- The cached blocks. A missing one ends the read with `h.lastErr`, which may be nil.
unfoldable pub gather : ℕ → List ℕ → Handle → Result (Option (List Bytes))
gather bs [] h = ok (some [])
gather bs (o ∷ os) h = elim (get_elem? h.cache (o / bs)) [
  | none ↦ panic
  | some cached ↦ elim cached [
    | none ↦ elim h.last_err [ none ↦ ok none | some e ↦ err e ]
    | some buf ↦ elim (gather bs os h) [
      | panic ↦ panic
      | err e ↦ err e
      | ok rest ↦ elim rest [ none ↦ ok none | some bufs ↦ ok (some (buf ∷ bufs)) ]
    ]
  ]
]

-- `bufs[l] = bufs[l][:cut]`, if it is longer.
unfoldable pub cut_last : ℕ → List Bytes → List Bytes
cut_last cut [] = []
cut_last cut (b ∷ []) = (if ltb cut (length b) then take cut b else b) ∷ []
cut_last cut (b ∷ c ∷ bufs) = b ∷ cut_last cut (c ∷ bufs)

-- `bufs[0] = bufs[0][bo:]`, out of range if the buffer is shorter.
unfoldable pub drop_first : ℕ → List Bytes → Result (List Bytes)
drop_first bo [] = panic
drop_first bo (b ∷ bufs) = if leb bo (length b) then ok (drop bo b ∷ bufs) else panic

unfoldable pub concat : List Bytes → Bytes
concat [] = []
concat (b ∷ bufs) = b ++ concat bufs

-- What `Read` makes of its blocks.
unfoldable pub assemble : ℕ → ℕ → ℕ → List Bytes → Result Bytes
unfolding cut_last drop_first concat
assemble bs bo size bufs = do
  let cut = (bo + size) % bs
  bufs' ← drop_first bo (if ltb 0 cut then cut_last cut bufs else bufs)
  ok (concat bufs')

-- `Read` from the second lock on. Data that is nil is empty.
unfoldable pub finish_read : ℕ → ℕ → ℕ → List ℕ → Handle → Result Bytes
unfolding gather assemble
finish_read bs offset size blocks h = elim (gather bs blocks h) [
  | panic ↦ panic
  | err e ↦ err e
  | ok found ↦ elim found [
    | none ↦ ok []
    | some bufs ↦ elim blocks [ [] ↦ panic | first ∷ os ↦ assemble bs (offset - first) size bufs ]
  ]
]

-- Every goroutine that runs comes to its end; `answer` is what `realFetch` gives for a block.
unfoldable pub settle : (ℕ → Result Bytes) → ℕ → List Chan → Handle → Handle
unfolding fetched
settle answer b [] h = h
settle answer b (c ∷ cs) h =
    settle answer (b + 1) cs (elim c [ idle ↦ h | running ↦ fetched b (answer b) h | closed ↦ h ])

-- `Read` with nothing else at work on the handle: the wait lets the goroutines finish.
unfoldable pub read : Fetcher → (ℕ → Result Bytes) → ℕ → ℕ → Handle → Result (Handle × Result Bytes)
unfolding begin_read settle finish_read
read f answer offset size h = if leb h.size offset then ok (h, ok []) else do
  (h₁, blocks, waits) ← begin_read f offset size h
  let h₂ = settle answer 0 h₁.active h₁
  ok (h₂, finish_read f.block_size offset size blocks h₂)
