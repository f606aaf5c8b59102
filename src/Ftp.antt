-- ===== src/Ftp.antt =====
-- ftp.go: the driver that an FTP server calls, over the front end of felib.go. The library's server
-- parses the protocol; filepath.ToSlash changes nothing where the separator is a slash.
pub mod Sorting
pub mod Listing
pub mod Files
pub mod Serving
mod Tests
use rufs.Base.{
  ℕ, List, [], ◌∷◌, ◌++◌, Option, none, some, Bool, true, false, ◌||◌, Str, text, slash,
  trim_slashes, ◌==◌, Dict, lookup, keys, nat_eq, ltb, map, if◌then◌else◌, Error, file_not_found,
  not_a_directory, read_only, Result, ok, err, panic,
}
use rufs.Common.{FileInfo}
use rufs.Fetch.{Fetcher, Handle, new_handle}
use rufs.Fetch.Stream.{Stream, stream}
use rufs.Frontend.{DirReply, Frontend, Remote, get_dir_cached, get_file_info, split_path}
use rufs.Fuse.{is_name}

-- `FTPFileInfo`
pub record Info : Type 0 where
  pub name : Str
  pub info : Option FileInfo
  pub dir : Bool

-- `Size` and `ModTime`; a file without information is a nil pointer.
unfoldable pub size : Info → Result ℕ
size i = if i.dir then ok 0 else elim i.info [ none ↦ panic | some fi ↦ ok fi.size ]

unfoldable pub mod_time : Info → Result ℕ
mod_time i = if i.dir then ok 0 else elim i.info [ none ↦ panic | some fi ↦ ok fi.mtime ]

-- `CheckPasswd`: any password will do.
unfoldable pub check_passwd : Str → Str → Str → Bool
check_passwd a username pass = a == username

abbrev pub dir_info : Str → Info
dir_info n = record { name = n; info = none; dir = true }

abbrev pub file_info : Str → FileInfo → Info
file_info n fi = record { name = n; info = some fi; dir = false }

-- The last part of `Stat`.
unfoldable pub info_in : Str → DirReply → Result Info
unfolding is_name
info_in fn r = elim (lookup fn r.files) [
  | some fi ↦ ok (file_info fn fi)
  | none ↦ if is_name fn r.dirs then ok (dir_info fn) else err file_not_found
]

-- `Stat` of a path without slashes at its ends.
unfoldable pub stat_at : Remote DirReply → Str → Frontend → Frontend × Result Info
unfolding info_in
stat_at get_dir path f =
    if path == []
    then (f, ok (dir_info (slash ∷ [])))
    else let (dn, fn) = split_path path in
      let (f', reply) = get_dir_cached get_dir dn f in
      (f', elim reply [ ok r ↦ info_in fn r | err e ↦ err e | panic ↦ panic ])

unfoldable pub stat : Remote DirReply → Str → Frontend → Frontend × Result Info
unfolding stat_at
stat get_dir path f = stat_at get_dir (trim_slashes path) f

unfoldable pub change_dir : Remote DirReply → Str → Frontend → Frontend × Result (Unit {0})
unfolding stat
change_dir get_dir dir f =
    let (f', i) = stat get_dir dir f in
    (
      f',
      elim i [
        | ok info ↦ if info.dir then ok tt else err not_a_directory
        | err e ↦ err e
        | panic ↦ panic
      ],
    )

-- The order of Go's strings, by bytes: whether the first comes before the second.
unfoldable pub str_ltb : Str → Str → Bool
str_ltb s [] = false
str_ltb [] (b ∷ t) = true
str_ltb (a ∷ s) (b ∷ t) = let rest = str_ltb s t in if nat_eq a b then rest else ltb a b

-- Sort of package sort: the ascending rearrangement.
unfoldable pub insert_sorted : Str → List Str → List Str
unfolding str_ltb
insert_sorted n [] = n ∷ []
insert_sorted n (m ∷ ms) =
    let rest = insert_sorted n ms in if str_ltb m n then m ∷ rest else n ∷ m ∷ ms

unfoldable pub sort : List Str → List Str
unfolding insert_sorted
sort [] = []
sort (n ∷ ns) = insert_sorted n (sort ns)

-- The zero value that the map gives for a missing name.
abbrev pub info_or_zero : Option FileInfo → FileInfo
info_or_zero none = record { size = 0; hash = []; mtime = 0 }
info_or_zero (some fi) = fi

-- What `ListDir` passes to its callback, in order.
unfoldable pub listing : DirReply → List Info
unfolding sort
listing r =
    map dir_info (sort r.dirs)
    ++ map (λ n. file_info n (info_or_zero (lookup n r.files))) (sort (keys r.files))

-- The calls of the callback up to its first error, and that error.
unfoldable pub call_back : (Info → Result (Unit {0})) → List Info → List Info × Result (Unit {0})
call_back cb [] = ([], ok tt)
call_back cb (i ∷ is) =
    let (calls, r) = call_back cb is in
    elim (cb i) [ ok u ↦ (i ∷ calls, r) | err e ↦ (i ∷ [], err e) | panic ↦ (i ∷ [], panic) ]

unfoldable pub list_dir :
    Remote DirReply
    → (Info → Result (Unit {0}))
    → Str
    → Frontend
    → Frontend × List Info × Result (Unit {0})
unfolding listing call_back
list_dir get_dir cb dir f =
    let (f', reply) = get_dir_cached get_dir dir f in
    elim reply [
      | ok r ↦ let (calls, result) = call_back cb (listing r) in (f', calls, result)
      | err e ↦ (f', [], err e)
      | panic ↦ (f', [], panic)
    ]

-- `DeleteDir`, `DeleteFile`, `Rename`, `MakeDir` and `PutFile`.
pub data Change : Type 0 where
  delete_dir delete_file rename make_dir put_file : Change

unfoldable pub change : Change → Result (Unit {0})
change c = err read_only

-- `GetFile`: the size, and a stream of the file from the offset on.
unfoldable pub get_file :
    (Str → Str → Bool)
    → Remote DirReply
    → Remote (List Str)
    → Str
    → ℕ
    → Fetcher
    → Frontend
    → Frontend × Result (Fetcher × Result (ℕ × Stream))
get_file connects get_dir get_owners fn offset fetcher f =
    let (f', info) = get_file_info file_not_found get_dir fn f in
    (
      f',
      elim info [
        | panic ↦ panic
        | err e ↦ err e
        | ok fi ↦ elim (get_owners fi.hash) [
          | panic ↦ panic
          | err e ↦ err e
          | ok owners ↦ elim (new_handle connects fi.hash fi.size owners fetcher) [
            | panic ↦ panic
            | err e ↦ err e
            | ok (fetcher', opened) ↦ ok (
              fetcher',
              elim opened [ ok h ↦ ok (fi.size, stream offset h) | err e ↦ err e | panic ↦ panic ],
            )
          ]
        ]
      ],
    )
