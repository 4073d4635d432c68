-- ===== src/Configuration/Tests.antt =====
-- A configuration for the LAN, and what Go's standard library answers for it.
use expediente.Base.{[], ◌∷◌, ◌==◌, String_eq, if◌then◌else◌, true, false, some, none, ◌≡◌, refl}
use expediente.Domain.{ok}
use expediente.Configuration.{SystemConfig, validate}
use expediente.Configuration.Options.{Parsers, TrustKey}
use expediente.Configuration.Listening.{Guarded, validate-Guarded}

abbrev parsers : Parsers
parsers = record {
  development_enabled = false;
  decode_key = λ text. some text;
  matches_identifier = λ text. true;
  to_lower = λ text. text;
  has_prefix = λ text prefix. false;
  split_host_port = λ address. some ("0.0.0.0", "8090");
  atoi = λ text. if text == "8090" then some 8090 else none;
  itoa = λ number. "8090";
  parse_addr = λ text. some (text == "127.0.0.1");
  parse_url = λ text. some (record {
    scheme = "http";
    host = "127.0.0.1:8090";
    hostname = "127.0.0.1";
    has_user = false;
    path = "";
    raw_query = "";
    fragment = "";
  });
  parse_prefix = λ text. true;
  separator = "/";
  is_abs = λ text. true;
  clean = λ text. text;
  to_slash = λ text. text;
  split = λ text. "" ∷ "var" ∷ "lib" ∷ "gestor" ∷ "" ∷ [];
  equal_fold = λ a b. a == b;
  has_line_break = λ text. false;
}

abbrev one_key : TrustKey
one_key = record {
  kid = "prod-1";
  public_key = "11qYAYKxCrfVS_7TyWQHOg7hcvPapiMlrwIaaPcHURo";
  environment = "production";
  purpose = "license";
}

abbrev lan_config : SystemConfig
lan_config = record {
  license = record {
    server_url = "";
    trusted_keys = one_key ∷ [];
    refresh_hours = 24;
    development_bypass = false;
    development_ca_file = "";
  };
  indexing = record {
    concurrency = record { mode = "manual"; native = 2; ocr = 1; total = 2 };
    fontconfig_file = "";
    tessdata_directory = "";
    programs = "pdfinfo" ∷ "pdftotext" ∷ "pdftoppm" ∷ "tesseract" ∷ [];
    workers = 2;
    maximum_file_mb = 100;
    maximum_pages = 500;
    page_timeout_seconds = 60;
  };
  listen_address = "0.0.0.0:8090";
  public_url = "http://127.0.0.1:8090";
  network_mode = "lan";
  state_directory = "/var/lib/gestor";
  upload_directory = "";
  tls_certificate = "";
  tls_private_key = "";
  trusted_proxies = [];
  session_idle_minutes = 30;
  session_absolute_hours = 12;
  login_window_minutes = 15;
  login_identifier_limit = 5;
  login_ip_limit = 30;
}

lan_config_valid : validate parsers lan_config ≡ ok tt
unfolding validate
lan_config_valid = refl

validate-Guarded_example : Guarded parsers lan_config
validate-Guarded_example = validate-Guarded parsers lan_config lan_config_valid
