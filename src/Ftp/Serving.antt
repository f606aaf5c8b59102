-- ===== src/Ftp/Serving.antt =====
-- ftp.go: the making of the FTP server, and what it asks of a file. The server itself is library
-- code.
use rufs.Base.{
  ℕ, ◌+◌, ◌^◌, [], Option, none, some, Bool, Str, text, ltb, if◌then◌else◌, Result, ok, ◌>>=◌,
  map_ok,
}
use rufs.Fetch.{Fetcher}
use rufs.Frontend.{Frontend}
use rufs.Ftp.{Info}

-- `FTPd`, with the options of the library's server.
pub record Ftpd : Type 0 where
  pub frontend : Frontend
  pub fetcher : Fetcher
  pub auth : Str
  pub hostname : Str
  pub public_ip : Str
  pub port : ℕ
  pub welcome_message : Str

-- `newFTPd`; `get_fetcher` is what `GetFetcher` gives.
unfoldable pub new_ftpd : ℕ → Str → Result Fetcher → Result Ftpd
new_ftpd port user get_fetcher = do
  f ← get_fetcher
  ok (record {
    frontend = record { cache = []; cache_expiry = [] };
    fetcher = f;
    auth = user;
    hostname = text "127.0.0.1";
    public_ip = text "127.0.0.1";
    port = port;
    welcome_message = text "Thanks for using RUFS";
  })

-- The function that `init` registers: no port, no server.
unfoldable pub ftp_module : ℕ → Str → Result Fetcher → Result (Option Ftpd)
unfolding new_ftpd
ftp_module port user get_fetcher =
    if ltb 0 port then map_ok some (new_ftpd port user get_fetcher) else ok none

-- `Name` and `IsDir`
abbrev pub info_name : Info → Str
info_name i = i.name

abbrev pub is_dir : Info → Bool
is_dir i = i.dir

-- os.ModeDir
abbrev pub mode_dir : ℕ
mode_dir = 2 ^ 31

-- `Mode`: the bit of a directory is apart from those of 0444, so the two are added.
unfoldable pub mode : Info → ℕ
mode i = if i.dir then 0x124 + mode_dir else 0x124

-- `Owner` and `Group`
abbrev pub owner : Info → Str
owner i = text "rufs"

abbrev pub group : Info → Str
group i = text "rufs"
