-- ===== src/Ftp/Files.antt =====
-- The FTP front end beside the mount, and a file that is fetched as a whole.
use rufs.Base.{
  ℕ, suc, ◌+◌, ◌*◌, ◌<◌, ◌≤◌, ◌≡◌, refl, sym, ◌∙◌, ap, subst, ◌⊎◌, inl, inr, List, [], some, none,
  Bool, Bool-cases, Option-cases, Str, trim_slashes, ◌==◌, lookup, if◌then◌else◌, length, drop,
  enoent, file_not_found, Result, ok, err, panic,
}
use rufs.Common.{FileInfo}
use rufs.Fetch.{Bytes, Fetcher, Handle, new_handle}
use rufs.Fetch.Blocks.{block}
use rufs.Fetch.Steady.{IsSteady}
use rufs.Fetch.Opening.{new_handle-IsSteady}
use rufs.Fetch.Stream.{Stream, stream, drain}
use rufs.Fetch.Draining.{drain-content}
use rufs.Frontend.{DirReply, Frontend, Remote, get_dir_cached, get_file_info, split_path}
use rufs.Fuse.{Attr, dir_attr, file_attr, attr, attr_in, is_name}
use rufs.Ftp.{Info, info_in, stat_at, stat, get_file}

-- The same answer of `Stat` and of `Attr`: a missing file has an error of its own in each.
abbrev pub Agree : Result Info → Result Attr → Type 0
Agree (ok i) (ok a) = a ≡ (
    if i.dir
    then dir_attr
    else elim i.info [ none ↦ dir_attr | some fi ↦ file_attr fi.size fi.mtime ])
Agree (err e) (err e') = (e ≡ e') ⊎ ((e ≡ file_not_found) × (e' ≡ enoent))
Agree panic panic = Unit
Agree (ok i) (err e) = ⊥
Agree (ok i) panic = ⊥
Agree (err e) (ok a) = ⊥
Agree (err e) panic = ⊥
Agree panic (ok a) = ⊥
Agree panic (err e) = ⊥

parts_match : (n : Str) (r : DirReply) → Agree (info_in n r) (attr_in n r)
unfolding info_in attr_in
parts_match n r = elim (Option-cases (lookup n r.files)) [
  | inr (fi, e) ↦ rw (e, info_in, attr_in) refl
  | inl e ↦ elim (Bool-cases (is_name n r.dirs)) [
    | inl d ↦ rw (e, info_in, attr_in) (rw d refl)
    | inr d ↦ rw (e, info_in, attr_in) (rw d (inr (refl, refl)))
  ]
]

replies_match :
    (n : Str) (reply : Result DirReply)
    → Agree
        (elim reply [ ok r ↦ info_in n r | err e ↦ err e | panic ↦ panic ])
        (elim reply [ ok r ↦ attr_in n r | err e ↦ err e | panic ↦ panic ])
replies_match n (ok r) = parts_match n r
replies_match n (err e) = inl refl
replies_match n panic = tt

-- `Stat` of the FTP front end and `Attr` of the mount, at the same path without the slashes at its
-- ends, use the cache alike and agree on the answer.
pub stat_agrees :
    (get_dir : Remote DirReply) (path : Str) (f : Frontend)
    → ((stat get_dir path f).0 ≡ (attr get_dir (trim_slashes path) f).0)
      × Agree (stat get_dir path f).1 (attr get_dir (trim_slashes path) f).1
unfolding stat stat_at attr
stat_agrees get_dir path f =
    let (dn, n) = split_path (trim_slashes path) in
    elim (Bool-cases (trim_slashes path == [])) [
      | inl e ↦ rw e (refl, refl)
      | inr e ↦ rw e (refl, replies_match n (get_dir_cached get_dir dn f).1)
    ]

-- What `GetFile` gives for a file that the master lists and that a peer has, with owners that
-- answer with its blocks: its size, and a stream that a reader with a buffer that divides the blocks
-- drains to the rest of the file.
pub get_file-drains :
    (connects : Str → Str → Bool) (get_dir : Remote DirReply) (get_owners : Remote (List Str))
    (fn : Str) (f f₁ : Frontend) (fetcher fetcher₁ : Fetcher) (fi : FileInfo) (owners : List Str)
    (h : Handle) (content : Bytes) (answer : ℕ → Result Bytes) (size m fuel j : ℕ)
    → get_file_info file_not_found get_dir fn f ≡ (f₁, ok fi)
    → get_owners fi.hash ≡ ok owners
    → new_handle connects fi.hash fi.size owners fetcher ≡ ok (fetcher₁, ok h)
    → fi.size ≡ length content
    → 0 < size
    → 0 < m
    → fetcher.block_size ≡ m * size
    → ((b : ℕ) → answer b ≡ ok (block fetcher.block_size content b))
    → length content ≤ j * size + fuel * size
    → (s : Stream) × (get_file connects get_dir get_owners fn (j * size) fetcher f
        ≡ (f₁, ok (fetcher₁, ok (fi.size, s))))
      × (drain (suc fuel) fetcher₁ answer size s ≡ some (drop (j * size) content))
unfolding get_file
get_file-drains connects get_dir get_owners fn f f₁ fetcher fetcher₁ fi owners h content answer size
      m fuel j listed owned opened sized p q d right enough =
    let (same, steady) =
      new_handle-IsSteady connects fi.hash content owners fetcher fetcher₁ h (rw sized at opened) in
    (
      stream (j * size) h,
      rw (get_file, listed, owned, opened) refl,
      drain-content fetcher₁ content answer size m fuel j h p q (same ∙ d)
          (λ b. right b ∙ ap (λ bs. ok (block bs content b)) (sym same))
          (subst (λ bs. IsSteady bs content h) (sym same) steady) enough,
    )
