-- ===== src/Server/Tls.antt =====
-- Where the TLS configuration comes from.
use grpc_server_rust.Prelude.{◌≡◌, refl, arith, Option, none, some, Str, str}
use grpc_server_rust.Prelude.Paths.{join}
use grpc_server_rust.Error.{ok}
use grpc_server_rust.Server.{
  TlsConfig, Files, candidates, find_dir, read, load_from, load_tls_config,
}

module _ {F : Type 0} (files : Files F) where
  -- The parts of a configuration are the files of one directory.
  abbrev pub IsFrom : Str → TlsConfig → Type 0
  IsFrom d t =
      (files.read_to_string (join d (str "client.crt")) ≡ ok t.cert)
      × (files.read_to_string (join d (str "client.key")) ≡ ok t.key)
      × (files.read_to_string (join d (str "rootCA.crt")) ≡ ok t.ca)

  load_from-IsFrom :
      (o : Option Str) (t : TlsConfig)
      → load_from files o ≡ ok t
      → (d : Str) × (o ≡ some d) × IsFrom d t
  unfolding load_from read
  load_from-IsFrom none t h = absurd (ground arith)
  load_from-IsFrom (some d) t h = (d, refl, ground arith)

  -- A TLS configuration that is loaded is read from the three files of one directory, the first
  -- candidate that has a client.crt.
  pub load_tls_config-IsFrom :
      (t : TlsConfig)
      → load_tls_config files ≡ ok t
      → (d : Str) × (find_dir files (candidates files) ≡ some d) × IsFrom d t
  unfolding load_tls_config
  load_tls_config-IsFrom t h = load_from-IsFrom (find_dir files (candidates files)) t h
