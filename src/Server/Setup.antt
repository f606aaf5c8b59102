-- ===== src/Server/Setup.antt =====
-- server.go: the start of a server, and the certificate that a new user asks the master for.
-- Sockets and the network are parameters.
use rufs.Base.{
  ℕ, [], ◌∷◌, ◌++◌, Option, none, some, not, ◌||◌, Str, text, ◌==◌, insert, if◌then◌else◌, Error,
  no_certificate, Result, ok, err, panic, ◌>>=◌,
}
use rufs.Vault.Files.{Bytes, Files, Writing, Pki, Join, create_key_pair}
use rufs.Master.{RegisterRequest, SigninRequest}
use rufs.Client.{MasterClient, new_client, set_callback}
use rufs.Client.Calls.{register, signin}

-- The flags that a server reads; the port is the text that it is printed as, and the directory of
-- --var_storage is expanded and there.
pub record Flags : Type 0 where
  pub user : Str
  pub port : Str
  pub ext_ip : Str
  pub share : Str
  pub register_token : Str
  pub var_storage : Str

-- The address that `Setup` signs in with: a server that offers nothing has none, unless it names
-- its IP.
unfoldable pub signin_addr : Flags → Str
signin_addr flags =
    if not (flags.share == []) || not (flags.ext_ip == [])
    then flags.ext_ip ++ b':' ∷ flags.port
    else []

-- What the network and the libraries do during the start: the listener, the connection to the
-- master, the answers of the master, the new key and its public form, and the writing of the two
-- files.
pub record Env : Type 0 where
  pub listen : Result (Unit {0})
  pub connect : Result ℕ
  pub dial_again : Result ℕ
  pub signins : ℕ → SigninRequest → Result (Unit {0})
  pub registers : ℕ → RegisterRequest → Result Str
  pub generated : Result Bytes
  pub serialize : Bytes → Result Bytes
  pub write_key : Writing
  pub write_certificate : Option Error

-- No callback is registered before the end of `Setup`.
abbrev pub no_callbacks : ℕ → ℕ → Result (Unit {0})
no_callbacks cb conn = ok tt

-- `getCertificates`, up to the exit of the process.
unfoldable pub get_certificates :
    Pki → Join → Env → Flags → MasterClient → Files → Files × Result (Unit {0})
unfolding create_key_pair register
get_certificates pki join_path env flags c fs =
    let keyfn = join_path flags.var_storage (flags.user ++ text ".key") in
    let (fs', made) = create_key_pair pki env.write_key env.generated keyfn fs in
    elim made [
      | err e ↦ (fs', err e)
      | panic ↦ (fs', panic)
      | ok priv ↦ elim (env.serialize priv) [
        | err e ↦ (fs', err e)
        | panic ↦ (fs', panic)
        | ok public_key ↦
            let (c', ret) =
              register no_callbacks env.dial_again env.registers flags.user flags.register_token
                public_key c in
            elim ret [
              | err e ↦ (fs', err e)
              | panic ↦ (fs', panic)
              | ok cert ↦ elim env.write_certificate [
                | some e ↦ (fs', err e)
                | none ↦ (
                  insert (join_path flags.var_storage (flags.user ++ text ".crt")) cert fs',
                  ok tt,
                )
              ]
            ]
      ]
    ]

-- How a start ends that does not fail: the process exits with a new certificate, or serves.
pub data Started : Type 0 where
  exits : Started
  serves : MasterClient → Started

-- `Setup`; `cert` is the certificate that `newServer` has loaded, and the callback that signs in
-- again has the number 0.
unfoldable pub setup : Pki → Join → Env → Flags → Option Bytes → Files → Files × Result Started
unfolding get_certificates signin_addr signin new_client set_callback
setup pki join_path env flags cert fs =
    let listening : Result (Unit {0}) = elim cert [ none ↦ ok tt | some crt ↦ env.listen ] in
    elim (listening >>= λ u. env.connect) [
      | err e ↦ (fs, err e)
      | panic ↦ (fs, panic)
      | ok conn ↦
          let registered = get_certificates pki join_path env flags (new_client conn) fs in
          if not (flags.register_token == [])
          then (registered.0, elim registered.1 [ ok u ↦ ok exits | err e ↦ err e | panic ↦ panic ])
          else (
            fs,
            elim cert [
              | none ↦ err no_certificate
              | some crt ↦
                  let (c, r) =
                    signin no_callbacks env.dial_again env.signins (signin_addr flags) flags.user
                      (new_client conn) in
                  elim r [ ok u ↦ ok (serves (set_callback 0 c)) | err e ↦ err e | panic ↦ panic ]
            ],
          )
    ]
