-- ===== src/Fetch/Draining.antt =====
-- A stream that is read to its end gives the rest of the file.
use rufs.Base.{
  List, ◌∷◌, if◌then◌else◌, ◌%◌, ℕ, zero, suc, ◌+◌, ◌-◌, ◌*◌, ◌/◌, ◌≤◌, ◌<◌, ◌≡◌, refl, sym, ap,
  ◌∙◌, subst, none, some, true, false, ltb, ltb→lt, leb, Bool-cases, inl, inr, ◌++◌, [], length,
  take, drop, eof, Result, ok, arith,
}
use native.Mathlib.Nat.{div-add-mod', mod-lt}
use native.Mathlib.Decide.{dec_lt}
use rufs.Fetch.{Bytes, Fetcher, Handle}
use rufs.Fetch.Read.{read}
use rufs.Fetch.Blocks.{block, div_exact}
use rufs.Fetch.Slices.{
  take-append-drop, take-nil, length-take, length-drop, take_of_length-le, take-take_le, drop_sum,
}
use rufs.Fetch.Steady.{IsSteady}
use rufs.Fetch.Reading.{read-slice}
use rufs.Fetch.Stream.{Stream, Reply, stream, stream_read, drain}

drop_of_length-le {ℓ} : {A : Type ℓ} (n : ℕ) (xs : List A) → length xs ≤ n → drop n xs ≡ []
drop_of_length-le zero [] h = refl
drop_of_length-le zero (x ∷ xs) h = absurd (omega arith)
drop_of_length-le (suc n) [] h = refl
drop_of_length-le (suc n) (x ∷ xs) h = drop_of_length-le n xs (omega arith)

-- What a call gives when `rest` is left.
abbrev reply_of : ℕ → Bytes → Reply
reply_of size rest = record {
  copied = take size (take size rest);
  n = length (take size rest);
  error = if ltb (length (take size rest)) size then some eof else none;
}

read_at_end :
    (f : Fetcher) (answer : ℕ → Result Bytes) (offset size : ℕ) (h : Handle)
    → leb h.size offset ≡ true
    → read f answer offset size h ≡ ok (h, ok [])
unfolding read
read_at_end f answer offset size h e = rw e refl

drain_end :
    (fuel : ℕ) (f : Fetcher) (answer : ℕ → Result Bytes) (size : ℕ) (s s' : Stream) (r : Reply)
    → stream_read f answer size s ≡ ok (s', r)
    → r.error ≡ some eof
    → drain (suc fuel) f answer size s ≡ some r.copied
unfolding drain
drain_end fuel f answer size s s' r run e = rw (run, drain) (rw e refl)

drain_more :
    (fuel : ℕ) (f : Fetcher) (answer : ℕ → Result Bytes) (size : ℕ) (s s' : Stream) (r : Reply)
    (rest : Bytes)
    → stream_read f answer size s ≡ ok (s', r)
    → r.error ≡ none
    → drain fuel f answer size s' ≡ some rest
    → drain (suc fuel) f answer size s ≡ some (r.copied ++ rest)
unfolding drain
drain_more fuel f answer size s s' r rest run e go = rw (run, drain) (rw (e, go) refl)

ge_of_ltb : (a b : ℕ) → ltb a b ≡ false → b ≤ a
ge_of_ltb a b h = ground arith

-- A buffer of `size` bytes divides a block into `m` parts.
module _ (f : Fetcher) (content : Bytes) (answer : ℕ → Result Bytes) (size m : ℕ)
    (positive : 0 < size) (parts : 0 < m) (divides : f.block_size ≡ m * size)
    (right : (b : ℕ) → answer b ≡ ok (block f.block_size content b)) where
  bs_positive : 0 < f.block_size
  bs_positive =
      let e : f.block_size ≡ (1 + (m - 1)) * size =
        divides ∙ ap (λ t. t * size) (let z : m ≡ 1 + (m - 1) = omega arith in z) in
      omega arith

  in_block : (j : ℕ) → (j * size + size - 1) / f.block_size ≡ j * size / f.block_size
  in_block j =
      let bs = f.block_size in
      let q = j / m in
      let r = j % m in
      let short : r < m = mod-lt j parts in
      let d = m - 1 - r in
      let whole : bs ≡ (r + 1 + d) * size =
        divides ∙ ap (λ t. t * size) (let z : m ≡ r + 1 + d = omega arith in z) in
      let scaled : q * bs ≡ q * (m * size) = ap (λ t. q * t) divides in
      let at : j * size ≡ (q * m + r) * size = ap (λ t. t * size) (sym (div-add-mod' j m)) in
      let start : j * size ≡ q * bs + r * size = omega arith in
      let last : j * size + size - 1 ≡ q * bs + (r * size + size - 1) = omega arith in
      ap (λ t. t / bs) last
      ∙ div_exact bs q (r * size + size - 1) (omega arith)
      ∙ sym (ap (λ t. t / bs) start ∙ div_exact bs q (r * size) (omega arith))

  stream_read_lem :
      (j : ℕ) (h : Handle)
      → IsSteady f.block_size content h
      → (h' : Handle) × (stream_read f answer size (stream (j * size) h)
          ≡ ok (
            record { h = h'; offset = j * size + length (take size (drop (j * size) content)) },
            reply_of size (drop (j * size) content),
          ))
        × IsSteady f.block_size content h'
  unfolding stream_read stream
  stream_read_lem j h s = elim (dec_lt (j * size) (length content)) [
    | no l ↦
        let end : drop (j * size) content ≡ [] =
          drop_of_length-le (j * size) content (omega arith) in
        let at_end : leb h.size (j * size) ≡ true = rw s.sized (ground arith) in
        (
          h,
          rw (stream_read, read_at_end f answer (j * size) size h at_end, end, take-nil, take-nil)
              refl,
          s,
        )
    | yes l ↦
        let (h', run, steady) =
          read-slice f content answer (j * size) size h bs_positive positive l
            (rw (in_block j) (omega (arith, div-add-mod' (j * size) f.block_size))) right s in
        (h', rw (stream_read, run) refl, steady)
  ]

  ended :
      (fuel j : ℕ) (h : Handle)
      → IsSteady f.block_size content h
      → ltb (length (take size (drop (j * size) content))) size ≡ true
      → drain (suc fuel) f answer size (stream (j * size) h) ≡ some (drop (j * size) content)
  ended fuel j h s short =
      let rest = drop (j * size) content in
      let (h', run, steady) = stream_read_lem j h s in
      let all : take size rest ≡ rest =
        take_of_length-le size rest (omega (arith, length-take size rest, ltb→lt _ _ short)) in
      drain_end fuel f answer size (stream (j * size) h) _ (reply_of size rest) run (rw short refl)
      ∙ ap some (rw all all)

  more :
      (fuel j : ℕ) (h : Handle)
      → IsSteady f.block_size content h
      → ltb (length (take size (drop (j * size) content))) size ≡ false
      → ((h' : Handle)
          → IsSteady f.block_size content h'
          → drain fuel f answer size (stream ((j + 1) * size) h')
            ≡ some (drop ((j + 1) * size) content))
      → drain (suc fuel) f answer size (stream (j * size) h) ≡ some (drop (j * size) content)
  more fuel j h s full go =
      let rest = drop (j * size) content in
      let (h', run, steady) = stream_read_lem j h s in
      let n = length (take size rest) in
      let whole : n ≡ size = omega (arith, length-take size rest, ge_of_ltb n size full) in
      let next : (j + 1) * size ≡ j * size + n = omega arith in
      let after : drain fuel f answer size (record { h = h'; offset = j * size + n })
          ≡ some (drop size rest) =
        subst
          (λ o.
            drain fuel f answer size (record { h = h'; offset = o })
            ≡ some (drop ((j + 1) * size) content))
          next (unfold stream in go h' steady)
        ∙ ap some (drop_sum (j * size) size ((j + 1) * size) content (omega arith)) in
      drain_more fuel f answer size (stream (j * size) h) _ (reply_of size rest) (drop size rest)
        run (rw full refl) after
      ∙ ap some
          (rw (take-take_le, (let z : size ≤ size = omega arith in z)) (take-append-drop size rest))

-- A reader with a buffer that divides the blocks of a fetcher, and a place in the file that is a
-- whole number of buffers: with one call more than the rest of the file has buffers it comes to
-- the end of the file, and has the rest of the file.
pub drain-content :
    (f : Fetcher) (content : Bytes) (answer : ℕ → Result Bytes) (size m fuel j : ℕ) (h : Handle)
    → 0 < size
    → 0 < m
    → f.block_size ≡ m * size
    → ((b : ℕ) → answer b ≡ ok (block f.block_size content b))
    → IsSteady f.block_size content h
    → length content ≤ j * size + fuel * size
    → drain (suc fuel) f answer size (stream (j * size) h) ≡ some (drop (j * size) content)
drain-content f content answer size m zero j h p q d right s enough =
    elim (Bool-cases (ltb (length (take size (drop (j * size) content))) size)) [
      | inl short ↦ ended f content answer size m p q d right zero j h s short
      | inr full ↦
          let rest = drop (j * size) content in
          absurd (
            omega (
              arith,
              length-take size rest,
              length-drop (j * size) content,
              ge_of_ltb (length (take size rest)) size full,
            ))
    ]
drain-content f content answer size m (suc fuel) j h p q d right s enough =
    elim (Bool-cases (ltb (length (take size (drop (j * size) content))) size)) [
      | inl short ↦ ended f content answer size m p q d right (suc fuel) j h s short
      | inr full ↦ more f content answer size m p q d right (suc fuel) j h s full (λ h' steady.
          drain-content f content answer size m fuel (j + 1) h' p q d right steady (omega arith))
    ]
