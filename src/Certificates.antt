-- ===== src/Certificates.antt =====
-- db/server_certi.h, and how deprecated/HttpServer.h prepares its TLS context. A context is the calls made on it.
use fast_db.Prelude.{Bool, List, [], ◌∷◌, Bytes, codes, if◌then◌else◌}

pub data TlsOption : Type 0 where
  default_workarounds no_sslv2 single_dh_use : TlsOption

pub data TlsCall : Type 0 where
  set_password_callback : Bytes → TlsCall
  set_options : List TlsOption → TlsCall
  use_certificate_chain use_private_key use_tmp_dh : Bytes → TlsCall
  use_certificate_chain_file use_private_key_file : Bytes → TlsCall

abbrev pub server_options : List TlsOption
server_options = default_workarounds ∷ (no_sslv2 ∷ (single_dh_use ∷ []))

-- The three texts are the literals of the function.
unfoldable pub load_server_certificate : Bytes → Bytes → Bytes → List TlsCall
load_server_certificate cert key dh =
    set_password_callback (codes "test")
    ∷ set_options server_options
    ∷ use_certificate_chain cert
    ∷ use_private_key key
    ∷ use_tmp_dh dh
    ∷ []

-- The constructor of HttpServer: without `enable_https` the context is left as it is.
unfoldable pub http_server : Bool → Bytes → Bytes → List TlsCall
http_server enable_https cert_path key_path =
    if enable_https
    then set_options server_options
      ∷ use_certificate_chain_file cert_path
      ∷ use_private_key_file key_path
      ∷ []
    else []
