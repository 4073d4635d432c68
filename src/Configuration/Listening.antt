-- ===== src/Configuration/Listening.antt =====
-- internal/config/config.go: how an accepted configuration listens, and when it serves plain HTTP.
use expediente.Base.{
  ℕ, Bool, true, false, not, ◌&&◌, ◌||◌, String, String_eq, List, [], ◌∷◌, Option, none, some, ◌==◌,
  leb, leb_iff, if◌then◌else◌, ◌≡◌, ◌≢◌, ◌⊎◌, ◌≤◌, inl, inr, refl, ap, subst, ◌∙◌, ne_of_beq,
  eq_of_beq, and-eq-true, or-eq-true, arith,
}
use expediente.Domain.{Result, ok, ◌>>◌, ok-injective, bind-eq-ok, require, require-eq-ok, coded}
use expediente.Configuration.{
  SystemConfig, is_loopback, no_proxies, plain_allowed, read_address, read_listener, read_origin,
  read_port, validate, validate_network, mode_fits,
}
use expediente.Configuration.Options.{Parsers, Url, indexing_validate, license_validate, within}

pub record Encrypted (c : SystemConfig) (url : Url) : Type 0 where
  pub scheme : url.scheme ≡ "https"
  pub keyed : ((c.tls_certificate ≢ "") × (c.tls_private_key ≢ "")) ⊎ (c.trusted_proxies ≢ [])

pub record Plain (parsers : Parsers) (c : SystemConfig) (host : String) (url : Url) : Type 0 where
  pub scheme : url.scheme ≡ "http"
  pub uncertified : c.tls_certificate ≡ ""
  pub reach :
      (is_loopback (parsers.parse_addr host) ≡ true)
      ⊎ ((c.network_mode ≡ "lan") × (host ≡ "0.0.0.0"))
  pub origin : (url.hostname ≡ "localhost") ⊎ (is_loopback (parsers.parse_addr url.hostname) ≡ true)

pub record Guarded (parsers : Parsers) (c : SystemConfig) : Type 0 where
  pub host : String
  pub port : String
  pub number : ℕ
  pub url : Url
  pub listens : parsers.split_host_port c.listen_address ≡ some (host, port)
  pub numbered : parsers.atoi port ≡ some number
  pub positive : 1 ≤ number
  pub bounded : number ≤ 65535
  pub parses : parsers.parse_url c.public_url ≡ some url
  pub channel : Encrypted c url ⊎ Plain parsers c host url

-- What the checks on the scheme and on TLS leave open, over the values of their tests.
channels :
    (https plain certificate key proxies : Bool)
    → (https || plain) ≡ true
    → (if certificate then key else not key) ≡ true
    → (certificate || https) ≡ true
    → (not https || not certificate || not proxies) ≡ true
    → ((https ≡ true) × (((certificate ≡ false) × (key ≡ false)) ⊎ (proxies ≡ false)))
      ⊎ ((plain ≡ true) × (certificate ≡ true))
channels true plain true key proxies a b d e = inl (refl, inr (ground arith))
channels true plain false key proxies a b d e = inl (refl, inl (refl, ground arith))
channels false plain certificate key proxies a b d e = inr (a, ground arith)

some_proxies : (proxies : List String) → no_proxies proxies ≡ false → proxies ≢ []
unfolding no_proxies
some_proxies [] h k = cc
some_proxies (proxy ∷ rest) h k = cc

required :
    (test : Bool) (text : String) (rest : Result (Unit {0}))
    → (require test (coded text) >> rest) ≡ ok tt
    → (test ≡ true) × (rest ≡ ok tt)
required true text rest h = (refl, h)
required false text rest h = cc

port_lem :
    (parsers : Parsers) (address : String × String) (o : Option ℕ) {read : String × String}
    → read_port parsers address o ≡ ok read
    → (address ≡ read) × ((number : ℕ) × (o ≡ some number) × (1 ≤ number) × (number ≤ 65535))
unfolding read_port within
port_lem parsers address none h = cc
port_lem parsers address (some number) h =
    let (_, a, k) =
      bind-eq-ok
        (require (leb 1 number && leb number 65535 && parsers.itoa number == address.1)
          (coded "listen_address"))
        _ h in
    let t =
      and-eq-true (leb 1 number && leb number 65535) (parsers.itoa number == address.1)
        (require-eq-ok _ _ a) in
    let (l, u) = and-eq-true (leb 1 number) (leb number 65535) t.0 in
    (ok-injective k, (number, refl, (leb_iff 1 number).0 l, (leb_iff number 65535).0 u))

listener_lem :
    (parsers : Parsers) (o : Option (String × String)) {address : String × String}
    → read_listener parsers o ≡ ok address
    → (o ≡ some address)
      × ((number : ℕ) × (parsers.atoi address.1 ≡ some number) × (1 ≤ number) × (number ≤ 65535))
unfolding read_listener
listener_lem parsers none h = cc
listener_lem parsers (some address) h =
    let (e, (number, n, l, u)) = port_lem parsers address (parsers.atoi address.1) h in
    (ap some e, (number, subst (λ a. parsers.atoi a.1 ≡ some number) e n, l, u))

plain_lem :
    (parsers : Parsers) (c : SystemConfig) (host : String) (loopback : Bool) (url : Url)
    → plain_allowed parsers c host loopback url ≡ true
    → is_loopback (parsers.parse_addr host) ≡ loopback
    → c.tls_certificate ≡ ""
    → Plain parsers c host url
unfolding plain_allowed
plain_lem parsers c host loopback url h e u =
    let lan = c.network_mode == "lan" && host == "0.0.0.0" in
    let local = url.hostname == "localhost" || is_loopback (parsers.parse_addr url.hostname) in
    let (k, o) = and-eq-true (url.scheme == "http" && (loopback || lan)) local h in
    let (s, r) = and-eq-true (url.scheme == "http") (loopback || lan) k in
    record {
      scheme = eq_of_beq _ _ s;
      uncertified = u;
      reach = elim (or-eq-true loopback lan r) [
        | inl l ↦ inl (e ∙ l)
        | inr l ↦
            let (m, z) = and-eq-true (c.network_mode == "lan") (host == "0.0.0.0") l in
            inr (eq_of_beq _ _ m, eq_of_beq _ _ z)
      ];
      origin = elim (or-eq-true (url.hostname == "localhost") _ o) [
        | inl l ↦ inl (eq_of_beq _ _ l)
        | inr l ↦ inr l
      ];
    }

network_lem :
    (parsers : Parsers) (c : SystemConfig) (address : String × String) (loopback : Bool) (url : Url)
    → validate_network parsers c address loopback url ≡ ok tt
    → is_loopback (parsers.parse_addr address.0) ≡ loopback
    → Encrypted c url ⊎ Plain parsers c address.0 url
unfolding validate_network
network_lem parsers c address loopback url h e =
    let https = url.scheme == "https" in
    let plain = plain_allowed parsers c address.0 loopback url in
    let certificate = c.tls_certificate == "" in
    let key = c.tls_private_key == "" in
    let proxies = no_proxies c.trusted_proxies in
    let (a, h₁) = required (https || plain) _ _ h in
    let (_, h₂) =
      required (c.network_mode == "" || c.network_mode == "local" || c.network_mode == "lan") _ _
        h₁ in
    let (_, h₃) = required (c.network_mode == "" || mode_fits c address) _ _ h₂ in
    let (b, h₄) = required (if certificate then key else not key) _ _ h₃ in
    let (d, h₅) = required (certificate || https) _ _ h₄ in
    let (f, _) = required (not https || not certificate || not proxies) _ _ h₅ in
    elim (channels https plain certificate key proxies a b d f) [
      | inl (s, inl (x, y)) ↦
          inl (record { scheme = eq_of_beq _ _ s; keyed = inl (ne_of_beq _ _ x, ne_of_beq _ _ y) })
      | inl (s, inr p) ↦ inl (record { scheme = eq_of_beq _ _ s; keyed = inr (some_proxies _ p) })
      | inr (p, u) ↦ inr (plain_lem parsers c address.0 loopback url p e (eq_of_beq _ _ u))
    ]

address_lem :
    (o : Option Bool) {loopback : Bool} → read_address o ≡ ok loopback → is_loopback o ≡ loopback
unfolding read_address is_loopback
address_lem none h = cc
address_lem (some loopback) h = ok-injective h

origin_lem : (o : Option Url) {url : Url} → read_origin o ≡ ok url → o ≡ some url
unfolding read_origin
origin_lem none h = cc
origin_lem (some url) h =
    let test =
      not (url.host == "")
      && not url.has_user
      && url.path == ""
      && url.raw_query == ""
      && url.fragment == "" in
    let (_, _, k) = bind-eq-ok (require test (coded "public_url")) _ h in ap some (ok-injective k)

-- A configuration that `Validate` accepts names a listener with a port from 1 to 65535 and a public
-- URL that parses. The public URL's scheme is https, and then there are a certificate and its key or
-- at least one trusted proxy; or it is http, and then there is no certificate, the URL's host is
-- localhost or a loopback address, and the listener's host is a loopback address, or 0.0.0.0 in the
-- mode lan.
pub validate-Guarded :
    (parsers : Parsers) (c : SystemConfig) → validate parsers c ≡ ok tt → Guarded parsers c
unfolding validate
validate-Guarded parsers c h =
    let (_, _, h₁) = bind-eq-ok (license_validate parsers c.license) _ h in
    let (_, _, h₂) = bind-eq-ok (indexing_validate parsers c.indexing) _ h₁ in
    let (address, a, h₃) =
      bind-eq-ok (read_listener parsers (parsers.split_host_port c.listen_address)) _ h₂ in
    let (loopback, l, h₄) = bind-eq-ok (read_address (parsers.parse_addr address.0)) _ h₃ in
    let (url, u, h₅) = bind-eq-ok (read_origin (parsers.parse_url c.public_url)) _ h₄ in
    let (_, n, _) = bind-eq-ok (validate_network parsers c address loopback url) _ h₅ in
    let (listens, (number, numbered, positive, bounded)) = listener_lem parsers _ a in
    record {
      host = address.0;
      port = address.1;
      number = number;
      url = url;
      listens = listens;
      numbered = numbered;
      positive = positive;
      bounded = bounded;
      parses = origin_lem _ u;
      channel = network_lem parsers c address loopback url n (address_lem _ l);
    }
