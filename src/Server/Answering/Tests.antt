-- ===== src/Server/Answering/Tests.antt =====
-- Two participants with a file of ten bytes: one that cannot open it, and one that can.
use rufs.Base.{
  ◌*◌, ◌≡◌, refl, inl, inr, [], ◌∷◌, Str, text, ◌==◌, lookup, split, no_peer, file_not_found, ok,
  err, true, arith, if◌then◌else◌,
}
use rufs.Fuse.{join_path}
use rufs.Fetch.{Bytes, Fetcher, Handle, real_fetch}
use rufs.Fetch.Read
use rufs.Fetch.Opening.{blank_handle, new_handle-IsSteady}
use rufs.Fetch.Steady.{IsSteady}
use rufs.Fetch.{new_handle}
use rufs.Server.{Server, split_share_path, share_plus_path}
use rufs.Server
use rufs.Server.Answering.{Participant, asks, IsAnswered, read-served}

program : Unit {0}
unfolding new_handle Server.read split_share_path Server.open_first join_path ◌==◌ lookup split
program = tt

abbrev content : Bytes
content = 0 ∷ 1 ∷ 2 ∷ 3 ∷ 4 ∷ 5 ∷ 6 ∷ 7 ∷ 8 ∷ 9 ∷ []

abbrev server : Server
server = record {
  shares = (text "m", text "/music") ∷ [];
  hash_to_path = (text "h1", (share_plus_path (text "m") (text "song"), tt) ∷ []) ∷ [];
  requests = [];
}

abbrev broken : Participant
broken = record { server = server; open_path = λ path. err file_not_found }

abbrev working : Participant
working = record {
  server = server;
  open_path = λ path. if path == text "/music/song" then ok content else err file_not_found;
}

abbrev who : Str → Participant
who ident = if ident == text "amy@a" then broken else working

abbrev fetcher : Fetcher
fetcher = record {
  peers = (text "amy@a", tt) ∷ (text "bob@b", tt) ∷ [];
  block_size = 4;
  prefetch_blocks = 1;
}

abbrev handle : Handle
handle = blank_handle (text "h1") 10 (text "amy@a" ∷ text "bob@b" ∷ []) 3

handle-IsSteady : IsSteady 4 content handle
unfolding program
handle-IsSteady =
    (new_handle-IsSteady (λ a u. true) (text "h1") content handle.peers fetcher fetcher handle
      refl).1

answered : IsAnswered who fetcher.peers (text "h1") content handle.peers
unfolding program
answered =
    inr (
      inr (file_not_found, λ offset size. refl),
      inl (refl, inl (text "m", text "song", refl, refl)),
    )

read-served_example :
    (h' : Handle) × (Read.read fetcher
        (λ b. real_fetch (asks who) fetcher.peers (text "h1") (b * 4) 4 no_peer handle.peers)
        3
        4
        handle
      ≡ ok (h', ok (3 ∷ 4 ∷ 5 ∷ 6 ∷ [])))
    × IsSteady 4 content h'
read-served_example =
    read-served fetcher who content 3 4 handle (omega arith) (omega arith) (omega arith)
      handle-IsSteady answered
