-- ===== src/Fetch/Overlap.antt =====
-- Reads of one handle that overlap. `Read` holds the lock of the handle up to its wait, and again
-- while it takes the blocks; between the two, other reads and the goroutines of `fetch` go on in
-- any order.
pub mod Cells
pub mod Starting
pub mod Outcomes
mod Tests
pub mod Calls
use rufs.Base.{
  ℕ, List, [], ◌∷◌, ◌++◌, Option, none, some, Bool, true, false, ◌≡◌, nat_eq, leb, map, get_elem?,
  set, if◌then◌else◌, Error, interrupted, Result, ok, err,
}
use rufs.Fetch.{Bytes, Chan, idle, running, closed, Fetcher, Handle, fetched}
use rufs.Fetch.Read.{begin_read, finish_read}
use rufs.Fetch.Blocks.{block}

-- Where a call of `Read` stands: it waits, with its blocks and those of its channels that are not
-- closed, or it has returned.
pub data Progress : Type 0 where
  waiting : List ℕ → List ℕ → Progress
  returned : Result Bytes → Progress

pub record Call : Type 0 where
  pub offset : ℕ
  pub size : ℕ
  pub progress : Progress

-- A handle and the calls of `Read` on it, the first one first.
pub record System : Type 0 where
  pub handle : Handle
  pub calls : List Call

abbrev pub is_running : Option Chan → Bool
is_running none = false
is_running (some idle) = false
is_running (some running) = true
is_running (some closed) = false

-- The channels that a call waits for: one that is closed already does not block.
unfoldable pub open_waits : Handle → List ℕ → List ℕ
open_waits h [] = []
open_waits h (b ∷ bs) =
    let rest = open_waits h bs in if is_running (get_elem? h.active b) then b ∷ rest else rest

unfoldable pub without : ℕ → List ℕ → List ℕ
without b [] = []
without b (w ∷ ws) = let rest = without b ws in if nat_eq b w then rest else w ∷ rest

-- `close(h.active[b])`, for a call that waits for it.
abbrev pub woken : ℕ → Progress → Progress
woken b (waiting blocks ws) = waiting blocks (without b ws)
woken b (returned r) = returned r

unfoldable pub wake : ℕ → Call → Call
unfolding without
wake b c = record c { progress = woken b c.progress }

-- The end of the goroutine that fetches block `b`.
unfoldable pub land : ℕ → Result Bytes → System → System
unfolding wake fetched
land b r s = record { handle = fetched b r s.handle; calls = map (wake b) s.calls }

-- A call comes back with a result.
abbrev pub return_call : ℕ → Call → Result Bytes → System → System
return_call i c r s = record s { calls = set s.calls i (record c { progress = returned r }) }

-- A call of `Read` that begins inside the file, up to its wait.
abbrev pub waiting_call : ℕ → ℕ → List ℕ → List ℕ → Handle → System → System
waiting_call offset size blocks waits h s = record {
  handle = h;
  calls =
      s.calls
      ++ record { offset = offset; size = size; progress = waiting blocks (open_waits h waits) }
        ∷ [];
}

-- The owners answer with a block of the file or an error. A context may be done at any time before
-- a call takes its blocks: `select` may see that although the channel is closed.
-- A call at or behind the end of the file returns at once and changes nothing, and one whose first
-- part panics ends the process: neither is a step.
pub data Step (f : Fetcher) (content : Bytes) (s : System) : System → Type 0 where
  begins :
      (offset size : ℕ) {h : Handle} {blocks waits : List ℕ}
      → leb s.handle.size offset ≡ false
      → begin_read f offset size s.handle ≡ ok (h, blocks, waits)
      → Step f content s (waiting_call offset size blocks waits h s)
  lands :
      (b : ℕ)
      → get_elem? s.handle.active b ≡ some running
      → Step f content s (land b (ok (block f.block_size content b)) s)
  fails :
      (b : ℕ) (e : Error)
      → get_elem? s.handle.active b ≡ some running
      → Step f content s (land b (err e) s)
  ends :
      (i : ℕ) {c : Call} {blocks : List ℕ}
      → get_elem? s.calls i ≡ some c
      → c.progress ≡ waiting blocks []
      → Step f content s
          (return_call i c (finish_read f.block_size c.offset c.size blocks s.handle) s)
  cancels :
      (i : ℕ) {c : Call} {blocks ws : List ℕ}
      → get_elem? s.calls i ≡ some c
      → c.progress ≡ waiting blocks ws
      → Step f content s (return_call i c (err interrupted) s)

-- What comes of a system by steps.
pub data Reach (f : Fetcher) (content : Bytes) (s : System) : System → Type 0 where
  here : Reach f content s s
  later : {t u : System} → Reach f content s t → Step f content t u → Reach f content s u

-- A handle that has just been opened.
abbrev pub opened : Handle → System
opened h = record { handle = h; calls = [] }
