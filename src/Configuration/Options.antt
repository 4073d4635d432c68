-- ===== src/Configuration/Options.antt =====
-- internal/licensing/options.go and internal/extraction: the options of the license client and of the
-- extraction, and what they must satisfy. The numbers are naturals: the code refuses every negative one.
use expediente.Base.{
  ℕ, Bool, true, false, not, ◌&&◌, ◌||◌, String, String_eq, List, [], ◌∷◌, Option, none, some, ◌==◌,
  leb,
}
use expediente.Domain.{Result, ok, err, ◌>>◌, require, coded}

pub record IndexingConcurrency : Type 0 where
  pub mode : String
  pub native : ℕ
  pub ocr : ℕ
  pub total : ℕ

-- `extraction.Options`, less the callback.
pub record Indexing : Type 0 where
  pub concurrency : IndexingConcurrency
  pub fontconfig_file : String
  pub tessdata_directory : String
  pub programs : List String
  pub workers : ℕ
  pub maximum_file_mb : ℕ
  pub maximum_pages : ℕ
  pub page_timeout_seconds : ℕ

pub record TrustKey : Type 0 where
  pub kid : String
  pub public_key : String
  pub environment : String
  pub purpose : String

-- `licensing.Options`
pub record LicenseOptions : Type 0 where
  pub server_url : String
  pub trusted_keys : List TrustKey
  pub refresh_hours : ℕ
  pub development_bypass : Bool
  pub development_ca_file : String

-- `url.URL`, as far as the checks read it.
pub record Url : Type 0 where
  pub scheme : String
  pub host : String
  pub hostname : String
  pub has_user : Bool
  pub path : String
  pub raw_query : String
  pub fragment : String

-- Go's standard library, and whether the build is one for development. `decode_key` is
-- `decodeBase64` for a public key, in hexadecimal digits, and `matches_identifier` the test of
-- `identifierPattern`; `parse_addr` answers whether the address is a loopback one, and `split` cuts at each "/".
pub record Parsers : Type 0 where
  pub development_enabled : Bool
  pub decode_key : String → Option String
  pub matches_identifier : String → Bool
  pub to_lower : String → String
  pub has_prefix : String → String → Bool
  pub split_host_port : String → Option (String × String)
  pub atoi : String → Option ℕ
  pub itoa : ℕ → String
  pub parse_addr : String → Option Bool
  pub parse_url : String → Option Url
  pub parse_prefix : String → Bool
  pub separator : String
  pub is_abs : String → Bool
  pub clean : String → String
  pub to_slash : String → String
  pub split : String → List String
  pub equal_fold : String → String → Bool
  pub has_line_break : String → Bool

unfoldable pub within : ℕ → ℕ → ℕ → Bool
within low high n = leb low n && leb n high

unfoldable pub every {ℓ} : {A : Type ℓ} → (A → Bool) → List A → Bool
every p [] = true
every p (a ∷ rest) = p a && every p rest

abbrev development_public_key_hex : String
development_public_key_hex = "d75a980182b10ab7d54bfed3c964073a0ee172f3daa62325af021a68f707511a"

server_origin : Option Url → Bool
server_origin none = false
server_origin (some url) =
    url.scheme == "https"
    && not (url.host == "")
    && not url.has_user
    && url.raw_query == ""
    && url.fragment == ""
    && (url.path == "" || url.path == "/")

seen : String → List String → Bool
seen kid [] = false
seen kid (other ∷ rest) = kid == other || seen kid rest

production_key : Parsers → TrustKey → Option String → Result (Unit {0})
production_key parsers key none = err (coded "invalid license trust key or purpose/environment")
production_key parsers key (some public) =
    require
      (parsers.development_enabled
        || (not (parsers.has_prefix (parsers.to_lower key.kid) "dev-")
            && not (public == development_public_key_hex)))
      (coded "development signing keys are forbidden in production")

trust_key : Parsers → List String → TrustKey → Result (Unit {0})
unfolding seen production_key
trust_key parsers kids key = do
  require
      (parsers.matches_identifier key.kid
        && not (seen key.kid kids)
        && key.purpose == "license"
        && (key.environment == "production"
            || (parsers.development_enabled && key.environment == "development")))
      (coded "invalid license trust key or purpose/environment")
  production_key parsers key (parsers.decode_key key.public_key)

trust_keys : Parsers → List String → List TrustKey → Result (Unit {0})
unfolding trust_key
trust_keys parsers kids [] = ok tt
trust_keys parsers kids (key ∷ rest) = do
  trust_key parsers kids key
  trust_keys parsers (key.kid ∷ kids) rest

-- `licensing.Options.Validate`; the decoding of a key is tested after its other fields, which fail
-- with the same error.
unfoldable pub license_validate : Parsers → LicenseOptions → Result (Unit {0})
unfolding server_origin trust_keys
license_validate parsers o = do
  require (parsers.development_enabled || (not o.development_bypass && o.development_ca_file == ""))
      (coded "development licensing configuration is forbidden in production")
  require (leb o.refresh_hours 720) (coded "license refresh_hours")
  require (o.server_url == "" || server_origin (parsers.parse_url o.server_url))
      (coded "license server_url must be an HTTPS origin")
  trust_keys parsers [] o.trusted_keys

unfoldable pub concurrency_valid : IndexingConcurrency → Bool
unfolding within
concurrency_valid c =
    (c.mode == "auto" || c.mode == "manual")
    && (not (c.mode == "manual")
        || (within 1 8 c.native
            && within 1 4 c.ocr
            && within 1 8 c.total
            && leb c.native c.total
            && leb c.ocr c.total))

unfoldable pub indexing_validate : Parsers → Indexing → Result (Unit {0})
unfolding within every concurrency_valid
indexing_validate parsers o = do
  require (o.fontconfig_file == "" || parsers.is_abs o.fontconfig_file) (coded "fontconfig_file")
  require (o.tessdata_directory == "" || parsers.is_abs o.tessdata_directory)
      (coded "tessdata_directory")
  require (o.concurrency.mode == "" || concurrency_valid o.concurrency) (coded "concurrency")
  require
      (within 1 8 o.workers
        && within 1 2048 o.maximum_file_mb
        && within 1 10000 o.maximum_pages
        && within 5 300 o.page_timeout_seconds)
      (coded "indexing")
  require
      (every (λ program. not (program == "") && not (parsers.has_line_break program)) o.programs)
      (coded "program")
