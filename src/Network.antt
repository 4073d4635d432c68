-- ===== src/Network.antt =====
-- internal/network/service.go: the listener of the HTTP interface and the change between local access
-- and access from the network. The operating system and the packages net and config enter as what
-- they answer; the goroutines that serve and drain requests are left out, as is the mutex, which
-- makes every operation one step. The fields of the configuration that the service only carries are
-- one text.
pub mod Atomic
pub mod Tests
use expediente.Base.{
  ℕ, Bool, true, false, not, ◌&&◌, ◌||◌, String, String_eq, ℕ_eq, List, [], ◌∷◌, ◌++◌, Option, none,
  some, ◌==◌, if◌then◌else◌, is_none,
}
use expediente.Domain.{Failure, Result, ok, err, ◌>>=◌, ◌>>◌, require, coded, invalid_request}
use Prim.Native.String.{◌++◌ as concat}

pub record NetworkConfig : Type 0 where
  pub network_mode : String
  pub listen_address : String
  pub public_url : String
  pub tls_certificate : String
  pub tls_private_key : String
  pub trusted_proxies : List String
  pub others : String

abbrev pub Listener : Type 0
Listener = ℕ

pub record Server : Type 0 where
  pub accepts : Listener
  pub serves : NetworkConfig

-- `Service`, with the file of the configuration, which only Save writes, and with the listeners
-- that accept connections: a closed one may still stand in the field `listener`.
pub record NetworkService : Type 0 where
  pub configuration : NetworkConfig
  pub disk : NetworkConfig
  pub listener : Option Listener
  pub accepting : List Listener
  pub server : Option Server
  pub errors : List Failure
  pub closed : Bool
  pub draining : List Server

-- What a connection of `checkLANPort` meets: someone answers, no answer in time, or a refusal.
pub data Dialled : Type 0 where
  connected timed_out refused : Dialled

-- What the outside answers to one call: `net.SplitHostPort` (with the host and the port, both empty
-- where it fails), `net.JoinHostPort`, `domain.Digest`, `Config.Validate`, the reading of the key pair,
-- `config.Load`, `config.Save`, and for the n-th time that a port is opened, the addresses that
-- `interfaces` lists, the connections to them and `net.Listen`.
pub record Outside : Type 0 where
  pub split_host_port : String → String × String
  pub join_host_port : String → String → String
  pub digest : String → String
  pub validate : NetworkConfig → Result (Unit {0})
  pub load_key_pair : String → String → Result (Unit {0})
  pub load : NetworkConfig → Result NetworkConfig
  pub save : NetworkConfig → Result (Unit {0})
  pub interfaces : ℕ → String → Result (List String)
  pub dial : ℕ → String → Dialled
  pub bind : ℕ → String → String → Result Listener

unfoldable pub no_texts : List String → Bool
no_texts [] = true
no_texts (text ∷ texts) = false

-- `mode`
unfoldable pub mode : Outside → NetworkConfig → String
unfolding no_texts
mode outside configuration =
    let (host, port) = outside.split_host_port configuration.listen_address in
    if not (configuration.network_mode == "")
    then configuration.network_mode
    else if (host == "127.0.0.1" && configuration.public_url == concat "http://127.0.0.1:" port)
        && (configuration.tls_certificate == "" && no_texts configuration.trusted_proxies)
    then "local"
    else "custom"

-- `revision`
unfoldable pub revision : Outside → NetworkConfig → String
revision outside configuration = outside.digest (
    concat configuration.network_mode
      (concat "\n" (concat configuration.listen_address (concat "\n" configuration.public_url))))

-- `checkLANPort`, at one address.
port_is_free : Dialled → Result (Unit {0})
port_is_free connected = err (coded "configured port already accepts connections")
port_is_free timed_out = err (coded "could not verify configured port availability")
port_is_free refused = ok tt

probe : Outside → ℕ → String → List String → Result (Unit {0})
unfolding port_is_free
probe outside attempt port [] = ok tt
probe outside attempt port (address ∷ addresses) =
    port_is_free (outside.dial attempt (outside.join_host_port address port))
    >> probe outside attempt port addresses

-- `checkLANPort`
unfoldable pub check_lan_port : Outside → ℕ → String → Result (Unit {0})
unfolding probe
check_lan_port outside attempt address = do
  available ← outside.interfaces attempt (outside.split_host_port address).1
  probe outside attempt (outside.split_host_port address).1 (available ++ ("127.0.0.1" ∷ []))

-- `listen`
unfoldable pub listen : Outside → ℕ → NetworkConfig → Result Listener
unfolding mode check_lan_port
listen outside attempt configuration =
    let protocol = if mode outside configuration == "custom" then "tcp" else "tcp4" in
    (if mode outside configuration == "lan"
      then check_lan_port outside attempt configuration.listen_address
      else ok tt)
    >> outside.bind attempt protocol configuration.listen_address

-- `net.Listen` succeeded: the listener accepts connections from then on.
abbrev pub open_listener : Listener → NetworkService → NetworkService
open_listener listener service = record service { accepting = listener ∷ service.accepting }

-- `Close` of a listener: it accepts no more.
unfoldable pub without : Listener → List Listener → List Listener
without listener [] = []
without listener (other ∷ rest) =
    if listener == other then without listener rest else other ∷ without listener rest

unfoldable pub close_listener : Option Listener → NetworkService → NetworkService
unfolding without
close_listener none service = service
close_listener (some listener) service = record service {
  accepting = without listener service.accepting;
}

-- `serve`
unfoldable pub serve : Listener → NetworkConfig → NetworkService → NetworkService
serve listener configuration service = record service {
  listener = some listener;
  server = some (record { accepts = listener; serves = configuration });
}

-- `New`
unfoldable pub new_service : NetworkConfig → NetworkService
new_service configuration = record {
  configuration = configuration;
  disk = configuration;
  listener = none;
  accepting = [];
  server = none;
  errors = [];
  closed = false;
  draining = [];
}

-- The checks of `Start` with the listener that it opens.
prepare_start : Outside → NetworkService → Result Listener
unfolding listen
prepare_start outside service = do
  require (is_none service.listener && not service.closed) (coded "ALREADY_STARTED")
  outside.validate service.configuration
  if service.configuration.tls_certificate == ""
      then ok tt
      else outside.load_key_pair service.configuration.tls_certificate
          service.configuration.tls_private_key
  listen outside 0 service.configuration

-- `Start`
unfoldable pub start : Outside → NetworkService → Result (Unit {0}) × NetworkService
unfolding prepare_start serve
start outside service = elim (prepare_start outside service) [
  | err e ↦ (err e, service)
  | ok listener ↦ (ok tt, serve listener service.configuration (open_listener listener service))
]

-- `LocalOnly`
unfoldable pub local_only : Outside → NetworkService → Bool
unfolding mode
local_only outside service = mode outside service.configuration == "local"

-- The channel of errors holds one; a further one is dropped.
unfoldable pub report : Failure → List Failure → List Failure
report failure [] = failure ∷ []
report failure (first ∷ rest) = first ∷ rest

-- `restore`
unfoldable pub restore :
    Outside → NetworkConfig → NetworkService → Result (Unit {0}) × NetworkService
unfolding listen serve report
restore outside configuration service = elim (listen outside 1 configuration) [
  | err e ↦ (
    err (coded "NETWORK_RESTART_REQUIRED"),
    record service { listener = none; errors = report e service.errors },
  )
  | ok listener ↦ (ok tt, serve listener configuration (open_listener listener service))
]

same_texts : List String → List String → Bool
same_texts [] [] = true
same_texts (a ∷ more) (b ∷ others) = a == b && same_texts more others
same_texts _ _ = false

-- `reflect.DeepEqual`
unfoldable pub same_config : NetworkConfig → NetworkConfig → Bool
unfolding same_texts
same_config a b =
    ((a.network_mode == b.network_mode && a.listen_address == b.listen_address)
      && (a.public_url == b.public_url && a.tls_certificate == b.tls_certificate))
    && ((a.tls_private_key == b.tls_private_key && same_texts a.trusted_proxies b.trusted_proxies)
        && a.others == b.others)

unread : Result NetworkConfig → Result NetworkConfig
unread (ok configuration) = ok configuration
unread (err _) = err (coded "NETWORK_CONFIG_READ")

-- The checks of `Apply` in front of its first change.
unfoldable pub check_apply : Outside → String → String → NetworkService → Result (Unit {0})
unfolding mode revision unread same_config
check_apply outside selected expected service = do
  require (not service.closed && not (is_none service.listener)) (coded "NETWORK_UNAVAILABLE")
  require (selected == "local" || selected == "lan") invalid_request
  require (not (mode outside service.configuration == "custom")) (coded "NETWORK_CUSTOM")
  require (expected == revision outside service.configuration) (coded "REVISION_CONFLICT")
  disk ← unread (outside.load service.disk)
  require (same_config disk service.configuration) (coded "REVISION_CONFLICT")

-- The configuration of the mode selected, on the same port.
unfoldable pub selected_config : Outside → String → NetworkConfig → NetworkConfig
selected_config outside selected old = record old {
  network_mode = selected;
  listen_address =
      outside.join_host_port (if selected == "lan" then "0.0.0.0" else "127.0.0.1")
        (outside.split_host_port old.listen_address).1;
}

-- What follows a failure behind the closed listener: the failure of `restore`, or the one given.
unfoldable pub roll_back :
    Outside → NetworkConfig → Failure → NetworkService → Result (Unit {0}) × NetworkService
unfolding restore
roll_back outside old failure service =
    let (outcome, restored) = restore outside old service in (outcome >> err failure, restored)

-- The candidate listens: its configuration is saved before it serves. Where that fails, the candidate
-- is closed and the previous configuration restored.
commit_config :
    Outside → NetworkConfig → Listener → NetworkService → Result (Unit {0}) × NetworkService
unfolding roll_back serve close_listener
commit_config outside next listener service = elim (outside.save next) [
  | err e ↦
      roll_back outside service.configuration (coded "NETWORK_CONFIG_WRITE")
        (close_listener (some listener) service)
  | ok _ ↦ (ok tt, serve listener next (record service { configuration = next; disk = next }))
]

-- `drain`: the previous server is remembered until its requests have ended.
unfoldable pub drain : Option Server → NetworkService → NetworkService
drain none service = service
drain (some server) service = record service { draining = server ∷ service.draining }

-- The change of the listener; the closed one is replaced or, where nothing can listen, removed.
unfoldable pub switch_listener :
    Outside → NetworkConfig → NetworkService → Result (Unit {0}) × NetworkService
unfolding listen roll_back commit_config close_listener
switch_listener outside next service = elim (listen outside 0 next) [
  | err e ↦
      roll_back outside service.configuration (coded "NETWORK_PORT_UNAVAILABLE")
        (close_listener service.listener service)
  | ok listener ↦
      commit_config outside next listener
        (open_listener listener (close_listener service.listener service))
]

drained : Option Server → Result (Unit {0}) × NetworkService → Result (Unit {0}) × NetworkService
unfolding drain
drained server (outcome, service) = (outcome, drain server service)

change_mode : Outside → NetworkConfig → NetworkService → Result (Unit {0}) × NetworkService
unfolding drained switch_listener
change_mode outside next service = elim (outside.validate next) [
  | err e ↦ (err e, service)
  | ok _ ↦ drained service.server (switch_listener outside next service)
]

-- `Apply`
unfoldable pub apply :
    Outside → String → String → NetworkService → Result (Unit {0}) × NetworkService
unfolding check_apply mode change_mode selected_config
apply outside selected expected service = elim (check_apply outside selected expected service) [
  | err e ↦ (err e, service)
  | ok _ ↦
      if mode outside service.configuration == selected
      then (ok tt, service)
      else change_mode outside (selected_config outside selected service.configuration) service
]

-- `Close`: the servers whose requests are awaited, the current one and those that drain.
unfoldable pub close : NetworkService → List Server × NetworkService
close service = (
  elim service.server [ none ↦ service.draining | some server ↦ server ∷ service.draining ],
  record service { closed = true },
)
