-- ===== src/Fetch/Tests.antt =====
-- Reads of a file of ten bytes in blocks of four.
use rufs.Base.{
  ◌+◌, ◌-◌, ◌/◌, ◌<◌, ◌↔◌, ◌*◌, some, ◌==◌, split, lookup, insert, err, no_peer, ℕ, zero, suc, ◌≡◌,
  refl, none, text, [], ◌∷◌, ◌>>=◌, ok, panic, arith, get_elem?,
}
use rufs.Fetch.{Bytes, Fetcher, Handle, new_handle, idle}
use rufs.Fetch.Read.{begin_read, read}
use rufs.Fetch.Bounds.{begin_read-panic_iff}
use rufs.Fetch.Steady.{IsCell, IsSteady}
use rufs.Fetch.Stream.{stream, drain}
use rufs.Fetch.Draining.{drain-content}
use rufs.Fetch.Blocks.{block}

program : Unit {0}
unfolding new_handle read ◌==◌ split lookup insert
program = tt

abbrev content : Bytes
content = 0 ∷ 1 ∷ 2 ∷ 3 ∷ 4 ∷ 5 ∷ 6 ∷ 7 ∷ 8 ∷ 9 ∷ []

abbrev fetcher : Fetcher
fetcher = record { peers = []; block_size = 4; prefetch_blocks = 1 }

abbrev fresh : Handle
fresh = record {
  hash = text "h1";
  size = 10;
  peers = [];
  cache = none ∷ none ∷ none ∷ [];
  active = idle ∷ idle ∷ idle ∷ [];
  last_err = none;
}

middle :
    (read fetcher (λ b. ok (block 4 content b)) 3 4 fresh >>= λ p. p.1) ≡ ok (3 ∷ 4 ∷ 5 ∷ 6 ∷ [])
unfolding program
middle = refl

past_cache : read fetcher (λ b. ok (block 4 content b)) 9 8 fresh ≡ panic
unfolding program
past_cache = refl

-- A fetch that failed is not repeated: the read after it returns the old error.
failed_once :
    (read fetcher (λ b. err no_peer) 3 4 fresh >>= λ p.
    read fetcher (λ b. ok (block 4 content b)) 3 4 p.0 >>= λ q. q.1)
    ≡ err no_peer
unfolding program
failed_once = refl

fresh-IsSteady : IsSteady 4 content fresh
fresh-IsSteady = record { sized = refl; extent = refl; cells = places }
  where
    places : (b : ℕ) → IsCell 4 content b (get_elem? fresh.cache b) (get_elem? fresh.active b)
    places zero = tt
    places (suc zero) = tt
    places (suc (suc zero)) = tt
    places (suc (suc (suc b))) = tt

begin_read-panic_iff_example : (begin_read fetcher 9 8 fresh ≡ panic) ↔ (10 / 4 < (9 + 8 - 1) / 4)
begin_read-panic_iff_example =
    begin_read-panic_iff fetcher content 9 8 fresh (omega arith) (omega arith) (omega arith)
      fresh-IsSteady

drain-content_example :
    drain 5 fetcher (λ b. ok (block 4 content b)) 2 (stream (1 * 2) fresh)
    ≡ some (2 ∷ 3 ∷ 4 ∷ 5 ∷ 6 ∷ 7 ∷ 8 ∷ 9 ∷ [])
drain-content_example =
    drain-content fetcher content (λ b. ok (block 4 content b)) 2 2 4 1 fresh (omega arith)
      (omega arith) refl (λ b. refl) fresh-IsSteady (omega arith)
