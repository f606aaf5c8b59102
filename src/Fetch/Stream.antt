-- ===== src/Fetch/Stream.antt =====
-- `pfStream`: a handle that is read from front to back.
use rufs.Base.{
  ℕ, zero, suc, ◌+◌, Option, none, some, [], ◌++◌, length, take, ltb, if◌then◌else◌, Error, eof,
  Result, ok, err, panic, ◌>>=◌,
}
use rufs.Fetch.{Bytes, Fetcher, Handle}
use rufs.Fetch.Read.{read}

-- `pfStream`, without the context that `Close` cancels.
pub record Stream : Type 0 where
  pub h : Handle
  pub offset : ℕ

unfoldable pub stream : ℕ → Handle → Stream
stream offset h = record { h = h; offset = offset }

-- What a call of `Read` gives: the bytes that it copied into the buffer, `n` and the error.
pub record Reply : Type 0 where
  pub copied : Bytes
  pub n : ℕ
  pub error : Option Error

-- `Read` of a stream, into a buffer of a size.
unfoldable pub stream_read : Fetcher → (ℕ → Result Bytes) → ℕ → Stream → Result (Stream × Reply)
stream_read f answer size s = do
  (h, r) ← read f answer s.offset size s.h
  elim r [
    | panic ↦ panic
    | err e ↦ ok (record s { h = h }, record { copied = []; n = 0; error = some e })
    | ok bytes ↦ ok (
      record { h = h; offset = s.offset + length bytes },
      record {
        copied = take size bytes;
        n = length bytes;
        error = if ltb (length bytes) size then some eof else none;
      },
    )
  ]

-- A client that reads up to the end with one buffer, as io.Copy does. `none` is an error, or that
-- the fuel ran out.
unfoldable pub drain : ℕ → Fetcher → (ℕ → Result Bytes) → ℕ → Stream → Option Bytes
drain zero f answer size s = none
drain (suc fuel) f answer size s = elim (stream_read f answer size s) [
  | panic ↦ none
  | err e ↦ none
  | ok (s', r) ↦ elim r.error [
    | none ↦ elim (drain fuel f answer size s') [
      | none ↦ none
      | some rest ↦ some (r.copied ++ rest)
    ]
    | some eof ↦ some r.copied
    | some other ↦ none
  ]
]
