-- ===== src/Fetch/Overlap/Tests.antt =====
-- Two reads of one handle on a file of ten bytes in blocks of four: the second one purges the
-- block that the first one has waited for.
use rufs.Base.{
  ◌≡◌, refl, ◌⊎◌, [], ◌∷◌, some, true, Result, ok, err, Error, text, take, drop, get_elem?, arith,
  split, ◌==◌, lookup, insert,
}
use rufs.Fetch.{Bytes, Fetcher, Handle, new_handle}
use rufs.Fetch.Read.{begin_read, finish_read}
use rufs.Fetch.Opening.{blank_handle}
use rufs.Fetch.Overlap.{
  waiting, returned, Call, System, open_waits, land, begins, lands, ends, Reach, here, later,
  opened,
}
use rufs.Fetch.Overlap.Outcomes.{overlapping_reads, overlapping_reads_go_on}

program : Unit {0}
unfolding new_handle begin_read finish_read open_waits land ◌==◌ split lookup insert
program = tt

abbrev content : Bytes
content = 0 ∷ 1 ∷ 2 ∷ 3 ∷ 4 ∷ 5 ∷ 6 ∷ 7 ∷ 8 ∷ 9 ∷ []

abbrev fetcher : Fetcher
fetcher = record { peers = []; block_size = 4; prefetch_blocks = 0 }

abbrev connected : Fetcher
connected = record fetcher { peers = (text "a@b", tt) ∷ [] }

abbrev fresh : Handle
fresh = blank_handle (text "h1") 10 (text "a@b" ∷ []) 3

fresh_opened :
    new_handle (λ a u. true) (text "h1") 10 (text "a@b" ∷ []) fetcher ≡ ok (connected, ok fresh)
unfolding program
fresh_opened = refl

abbrev first_call : Call
first_call = record { offset = 4; size = 4; progress = waiting (4 ∷ []) (1 ∷ []) }

-- The first call waits for its block.
one_waits :
    (s : System) × Reach connected content (opened fresh) s
    × (get_elem? s.calls 0 ≡ some first_call)
unfolding program
one_waits = (_, later here (begins 4 4 refl refl), refl)

-- Its block arrives, and the second call, for the block behind, purges it before the first one
-- goes on.
starved :
    (s : System) × Reach connected content (opened fresh) s
    × (get_elem? s.calls 0 ≡ some (record first_call { progress = returned (ok []) }))
unfolding program
starved = (
  _,
  later (later (later (later here (begins 4 4 refl refl)) (lands 1 refl)) (begins 8 2 refl refl))
      (ends 0 refl refl),
  refl,
)

-- Without the second call it has its bytes.
served :
    (s : System) × Reach connected content (opened fresh) s
    × (get_elem? s.calls 0
        ≡ some (record first_call { progress = returned (ok (4 ∷ 5 ∷ 6 ∷ 7 ∷ [])) }))
unfolding program
served =
    (_, later (later (later here (begins 4 4 refl refl)) (lands 1 refl)) (ends 0 refl refl), refl)

abbrev bytes : Result Bytes
bytes = ok (4 ∷ 5 ∷ 6 ∷ 7 ∷ [])

overlapping_reads_example :
    (bytes ≡ ok (take 4 (drop 4 content))) ⊎ ((bytes ≡ ok []) ⊎ ((e : Error) × (bytes ≡ err e)))
overlapping_reads_example =
    overlapping_reads connected fetcher content (λ a u. true) (text "h1") (text "a@b" ∷ []) fresh
      served.0 0 (record first_call { progress = returned bytes }) bytes (omega arith) fresh_opened
      served.1 served.2 refl (omega arith)

overlapping_reads_go_on_example :
    (t : System) × Reach connected content one_waits.0 t
    × (get_elem? t.calls 0 ≡ some (record first_call { progress = waiting (4 ∷ []) [] }))
overlapping_reads_go_on_example =
    overlapping_reads_go_on connected fetcher content (λ a u. true) (text "h1") (text "a@b" ∷ [])
      fresh one_waits.0 0 first_call (4 ∷ []) (1 ∷ []) (omega arith) fresh_opened one_waits.1
      one_waits.2 refl
