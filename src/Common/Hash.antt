-- ===== src/Common/Hash.antt =====
-- common/hash.go: the hash of a file. Files and SHA-1 are library code.
use rufs.Base.{ℕ, List, Option, none, some, Str, Error, Result, ok, err, panic}

-- `HashFile`; `copied` is what io.Copy reads of an open file, with its error, and `sha1_hex` the
-- sum in hex.
unfoldable pub hash_file :
    {F : Type 0}
    → (Str → Result F)
    → (F → List ℕ × Option Error)
    → (List ℕ → Str)
    → Str
    → Result Str
hash_file open_file copied sha1_hex fn = elim (open_file fn) [
  | err e ↦ err e
  | panic ↦ panic
  | ok fh ↦ let (bytes, e) = copied fh in elim e [ some x ↦ err x | none ↦ ok (sha1_hex bytes) ]
]
