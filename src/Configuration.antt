-- ===== src/Configuration.antt =====
-- internal/config/config.go: what a configuration must satisfy to be loaded or saved. The numbers are
-- naturals: the code refuses every negative one.
pub mod Options
pub mod Listening
pub mod Tests
use expediente.Base.{
  ℕ, Bool, true, false, not, ◌&&◌, ◌||◌, String, String_eq, List, [], ◌∷◌, Option, none, some, ◌==◌,
  leb, if◌then◌else◌,
}
use expediente.Domain.{Result, ok, err, ◌>>=◌, ◌>>◌, require, coded}
use Prim.Native.String.{◌++◌ as concat}
use expediente.Configuration.Options.{
  Indexing, LicenseOptions, Parsers, Url, every, indexing_validate, license_validate, within,
}

pub record SystemConfig : Type 0 where
  pub license : LicenseOptions
  pub indexing : Indexing
  pub listen_address : String
  pub public_url : String
  pub network_mode : String
  pub state_directory : String
  pub upload_directory : String
  pub tls_certificate : String
  pub tls_private_key : String
  pub trusted_proxies : List String
  pub session_idle_minutes : ℕ
  pub session_absolute_hours : ℕ
  pub login_window_minutes : ℕ
  pub login_identifier_limit : ℕ
  pub login_ip_limit : ℕ

unfoldable pub read_port : Parsers → String × String → Option ℕ → Result (String × String)
unfolding within
read_port parsers address none = err (coded "listen_address")
read_port parsers address (some number) = do
  require (within 1 65535 number && parsers.itoa number == address.1) (coded "listen_address")
  ok address

-- The host and the port that `ListenAddress` names.
unfoldable pub read_listener : Parsers → Option (String × String) → Result (String × String)
unfolding read_port
read_listener parsers none = err (coded "listen_address")
read_listener parsers (some address) = read_port parsers address (parsers.atoi address.1)

unfoldable pub read_address : Option Bool → Result Bool
read_address none = err (coded "listen_address must use an IP address")
read_address (some loopback) = ok loopback

unfoldable pub read_origin : Option Url → Result Url
read_origin none = err (coded "public_url")
read_origin (some url) = do
  require
      (not (url.host == "")
        && not url.has_user
        && url.path == ""
        && url.raw_query == ""
        && url.fragment == "")
      (coded "public_url")
  ok url

unfoldable pub is_loopback : Option Bool → Bool
is_loopback none = false
is_loopback (some loopback) = loopback

unfoldable pub no_proxies : List String → Bool
no_proxies [] = true
no_proxies (proxy ∷ rest) = false

-- HTTP serves a loopback origin, on a loopback listener or where the LAN was chosen.
unfoldable pub plain_allowed : Parsers → SystemConfig → String → Bool → Url → Bool
unfolding is_loopback
plain_allowed parsers c host loopback url =
    url.scheme == "http"
    && (loopback || (c.network_mode == "lan" && host == "0.0.0.0"))
    && (url.hostname == "localhost" || is_loopback (parsers.parse_addr url.hostname))

unfoldable pub mode_fits : SystemConfig → String × String → Bool
unfolding no_proxies
mode_fits c address =
    address.0 == (if c.network_mode == "lan" then "0.0.0.0" else "127.0.0.1")
    && c.public_url == concat "http://127.0.0.1:" address.1
    && c.tls_certificate == ""
    && c.tls_private_key == ""
    && no_proxies c.trusted_proxies

private_directory : Parsers → String → Bool
private_directory parsers directory =
    parsers.is_abs directory && not (parsers.clean directory == parsers.separator)

-- The part of `Validate` on the network: the mode, TLS and the proxies.
unfoldable pub validate_network :
    Parsers → SystemConfig → String × String → Bool → Url → Result (Unit {0})
unfolding plain_allowed mode_fits no_proxies every
validate_network parsers c address loopback url = do
  require (url.scheme == "https" || plain_allowed parsers c address.0 loopback url)
      (coded "LAN access requires HTTPS")
  require (c.network_mode == "" || c.network_mode == "local" || c.network_mode == "lan")
      (coded "network_mode")
  require (c.network_mode == "" || mode_fits c address) (coded "local/LAN mode")
  require
      (if c.tls_certificate == "" then c.tls_private_key == "" else not (c.tls_private_key == ""))
      (coded "TLS needs both certificate and private key")
  require (c.tls_certificate == "" || url.scheme == "https") (coded "direct TLS")
  require
      (not (url.scheme == "https")
        || not (c.tls_certificate == "")
        || not (no_proxies c.trusted_proxies))
      (coded "HTTPS requires direct TLS or explicit trusted proxy CIDRs")
  require (every parsers.parse_prefix c.trusted_proxies) (coded "proxy")

-- The rest of `Validate`: the directories and the limits.
unfoldable pub validate_limits : Parsers → SystemConfig → Result (Unit {0})
unfolding private_directory every within
validate_limits parsers c = do
  require (private_directory parsers c.state_directory) (coded "state_directory")
  require (c.upload_directory == "" || private_directory parsers c.upload_directory)
      (coded "upload_directory")
  require
      (every
        (λ component.
          not (parsers.equal_fold component "htdocs")
          && not (parsers.equal_fold component "wwwroot"))
        (parsers.split (
          concat (parsers.to_slash c.state_directory)
            (concat "/" (parsers.to_slash c.upload_directory)))))
      (coded "state_directory cannot be inside a public web root")
  require (within 1 1440 c.session_idle_minutes && within 1 168 c.session_absolute_hours)
      (coded "session timeouts")
  require
      (within 1 60 c.login_window_minutes
        && within 1 100 c.login_identifier_limit
        && within 1 1000 c.login_ip_limit)
      (coded "login rate limits")

-- `Config.Validate`; a failure's text is shortened.
unfoldable pub validate : Parsers → SystemConfig → Result (Unit {0})
unfolding license_validate indexing_validate read_listener read_address read_origin validate_network
    validate_limits
validate parsers c = do
  license_validate parsers c.license
  indexing_validate parsers c.indexing
  address ← read_listener parsers (parsers.split_host_port c.listen_address)
  loopback ← read_address (parsers.parse_addr address.0)
  url ← read_origin (parsers.parse_url c.public_url)
  validate_network parsers c address loopback url
  validate_limits parsers c
