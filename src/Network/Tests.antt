-- ===== src/Network/Tests.antt =====
-- Runs of the network service.
use expediente.Base.{[], ◌∷◌, String, ◌==◌, String_eq, if◌then◌else◌, ◌⊎◌, refl}
use expediente.Domain.{ok}
use expediente.Network.{
  NetworkConfig, NetworkService, Outside, refused, apply, new_service, open_listener, revision,
  selected_config, serve,
}
use expediente.Network.Atomic.{Changed, Serving, Unchanged, apply-either}

abbrev local_config : NetworkConfig
local_config = record {
  network_mode = "local";
  listen_address = "127.0.0.1:8080";
  public_url = "http://127.0.0.1:8080";
  tls_certificate = "";
  tls_private_key = "";
  trusted_proxies = [];
  others = "";
}

abbrev outside : Outside
outside = record {
  split_host_port = λ address. ("127.0.0.1", "8080");
  join_host_port = λ host port. if host == "0.0.0.0" then "0.0.0.0:8080" else "127.0.0.1:8080";
  digest = λ text. text;
  validate = λ configuration. ok tt;
  load_key_pair = λ certificate key. ok tt;
  load = λ disk. ok disk;
  save = λ configuration. ok tt;
  interfaces = λ attempt port. ok ("192.168.1.5" ∷ []);
  dial = λ attempt address. refused;
  bind = λ attempt protocol address. ok 7;
}

abbrev running_service : NetworkService
running_service = serve 3 local_config (open_listener 3 (new_service local_config))

abbrev current_revision : String
current_revision = revision outside local_config

running_service-Serving : Serving running_service
unfolding serve new_service
running_service-Serving = record { accepts = 3; listens = refl; connects = refl; serves = refl }

apply-either_example :
    Unchanged running_service (apply outside "lan" current_revision running_service)
    ⊎ Changed
        (selected_config outside "lan" running_service.configuration)
        (apply outside "lan" current_revision running_service)
apply-either_example =
    apply-either outside "lan" current_revision running_service running_service-Serving
