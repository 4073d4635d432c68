-- ===== src/Network/Atomic.antt =====
-- internal/network/service.go: Apply changes the memory, the file and the listener together or none.
use expediente.Base.{
  String, String_eq, ℕ_eq, List, [], ◌∷◌, beq_refl, ap, sym, ◌∙◌, Option, none, some, ◌==◌,
  Bool-cases, ◌≡◌, ◌⊎◌, inl, inr, refl,
}
use expediente.Domain.{Failure, Result, ok, err, Result-cases, coded}
use expediente.Network.{
  NetworkConfig, NetworkService, Outside, Listener, Server, apply, change_mode, check_apply,
  close_listener, without, open_listener, commit_config, drain, drained, listen, mode, restore,
  roll_back, selected_config, serve, switch_listener,
}

-- The service accepts connections, through its listener alone, and serves its configuration.
pub record Serving (service : NetworkService) : Type 0 where
  pub accepts : Listener
  pub listens : service.listener ≡ some accepts
  pub connects : service.accepting ≡ accepts ∷ []
  pub serves : service.server ≡ some (record { accepts = accepts; serves = service.configuration })

abbrev pub Applied : Type 0
Applied = Result (Unit {0}) × NetworkService

abbrev pub restart_required : Result (Unit {0})
restart_required = err (coded "NETWORK_RESTART_REQUIRED")

-- The configuration stays in memory and on disk, and is served; or nothing accepts connections any
-- more, which the answer says.
pub record Unchanged (service : NetworkService) (answer : Applied) : Type 0 where
  pub same_memory : answer.1.configuration ≡ service.configuration
  pub same_disk : answer.1.disk ≡ service.disk
  pub served :
      Serving answer.1
      ⊎ ((answer.0 ≡ restart_required) × (answer.1.listener ≡ none) × (answer.1.accepting ≡ []))

-- The other configuration is in memory and on disk, and is served.
pub record Changed (next : NetworkConfig) (answer : Applied) : Type 0 where
  pub accepted : answer.0 ≡ ok tt
  pub new_memory : answer.1.configuration ≡ next
  pub new_disk : answer.1.disk ≡ next
  pub served : Serving answer.1

-- A listener that alone accepts connections leaves none when it is closed.
without_only :
    (listener : Listener) (accepting rest : List Listener)
    → rest ≡ []
    → accepting ≡ listener ∷ rest
    → without listener accepting ≡ []
unfolding without
without_only listener accepting rest e a = rw (a, e, without, beq_refl listener) refl

-- Closing the listener of a service that serves leaves everything else as it was.
record Stopped (service stopped : NetworkService) : Type 0 where
  memory : stopped.configuration ≡ service.configuration
  disk : stopped.disk ≡ service.disk
  silent : stopped.accepting ≡ []

close_listener-Stopped :
    (listener : Option Listener) (service : NetworkService) (accepts : Listener)
    → listener ≡ some accepts
    → service.accepting ≡ accepts ∷ []
    → Stopped service (close_listener listener service)
unfolding close_listener
close_listener-Stopped none service accepts l a = cc
close_listener-Stopped (some listener) service accepts l a = record {
  memory = refl;
  disk = refl;
  silent =
      without_only listener service.accepting [] refl
        (let same : listener ≡ accepts = cc in a ∙ ap (λ (x : Listener). x ∷ []) (sym same));
}

reclosed :
    (listener : Listener) (service stopped : NetworkService)
    → Stopped service stopped
    → Stopped service (close_listener (some listener) (open_listener listener stopped))
unfolding close_listener
reclosed listener service stopped s = record {
  memory = s.memory;
  disk = s.disk;
  silent = without_only listener (listener ∷ stopped.accepting) stopped.accepting s.silent refl;
}

roll_back-Unchanged :
    (outside : Outside) (old : NetworkConfig) (failure : Failure) (service stopped : NetworkService)
    → Stopped service stopped
    → old ≡ stopped.configuration
    → Unchanged service (roll_back outside old failure stopped)
unfolding roll_back restore serve
roll_back-Unchanged outside old failure service stopped s o =
    elim (Result-cases (listen outside 1 old)) [
      | inr (e, h) ↦
          rw (h, restore)
            (record {
              same_memory = s.memory;
              same_disk = s.disk;
              served = inr (refl, refl, s.silent);
            })
      | inl (l, h) ↦
          rw (h, restore)
            (record {
              same_memory = s.memory;
              same_disk = s.disk;
              served = inl (record {
                accepts = l;
                listens = refl;
                connects = ap (λ (rest : List Listener). l ∷ rest) s.silent;
                serves = ap (λ served. some (record { accepts = l; serves = served })) o;
              });
            })
    ]

switch-either :
    (outside : Outside) (next : NetworkConfig) (service : NetworkService)
    → Serving service
    → Unchanged service (switch_listener outside next service)
      ⊎ Changed next (switch_listener outside next service)
unfolding switch_listener commit_config serve
switch-either outside next service serving =
    let stopped =
      close_listener-Stopped service.listener service serving.accepts serving.listens
        serving.connects in
    elim (Result-cases (listen outside 0 next)) [
      | inr (e, h) ↦
          rw (h, switch_listener)
            (inl (
              roll_back-Unchanged outside service.configuration (coded "NETWORK_PORT_UNAVAILABLE")
                service (close_listener service.listener service) stopped (sym stopped.memory)))
      | inl (l, h) ↦ elim (Result-cases (outside.save next)) [
        | inr (e, k) ↦
            rw (h, switch_listener, commit_config, k)
              (inl (
                roll_back-Unchanged outside _ (coded "NETWORK_CONFIG_WRITE") service
                  (close_listener (some l)
                    (open_listener l (close_listener service.listener service)))
                  (reclosed l service (close_listener service.listener service) stopped) refl))
        | inl (u, k) ↦
            rw (h, switch_listener, commit_config, k)
              (inr (record {
                accepted = refl;
                new_memory = refl;
                new_disk = refl;
                served = record {
                  accepts = l;
                  listens = refl;
                  connects = ap (λ (rest : List Listener). l ∷ rest) stopped.silent;
                  serves = refl;
                };
              }))
      ]
    ]

drained-Unchanged :
    (server : Option Server) (service : NetworkService) (answer : Applied)
    → Unchanged service answer
    → Unchanged service (drained server answer)
unfolding drained drain
drained-Unchanged none service answer u = u
drained-Unchanged (some server) service answer u = record {
  same_memory = u.same_memory;
  same_disk = u.same_disk;
  served = elim u.served [
    | inl s ↦ inl (record {
      accepts = s.accepts;
      listens = s.listens;
      connects = s.connects;
      serves = s.serves;
    })
    | inr n ↦ inr n
  ];
}

drained-Changed :
    (server : Option Server) (next : NetworkConfig) (answer : Applied)
    → Changed next answer
    → Changed next (drained server answer)
unfolding drained drain
drained-Changed none next answer c = c
drained-Changed (some server) next answer c = record {
  accepted = c.accepted;
  new_memory = c.new_memory;
  new_disk = c.new_disk;
  served = record {
    accepts = c.served.accepts;
    listens = c.served.listens;
    connects = c.served.connects;
    serves = c.served.serves;
  };
}

change_mode-either :
    (outside : Outside) (next : NetworkConfig) (service : NetworkService)
    → Serving service
    → Unchanged service (change_mode outside next service)
      ⊎ Changed next (change_mode outside next service)
unfolding change_mode
change_mode-either outside next service s = elim (Result-cases (outside.validate next)) [
  | inr (e, h) ↦
      rw (h, change_mode) (inl (record { same_memory = refl; same_disk = refl; served = inl s }))
  | inl (u, h) ↦
      rw (h, change_mode)
        (elim (switch-either outside next service s) [
          | inl k ↦ inl (drained-Unchanged service.server service _ k)
          | inr c ↦ inr (drained-Changed service.server next _ c)
        ])
]

-- Where the service serves its configuration, whatever the system answers: Apply either keeps the
-- configuration in memory and on disk and serves it, or answers that a restart is required and no listener
-- accepts connections, or it succeeds and the configuration of the mode selected is in memory, on disk and served.
pub apply-either :
    (outside : Outside) (selected expected : String) (service : NetworkService)
    → Serving service
    → Unchanged service (apply outside selected expected service)
      ⊎ Changed
          (selected_config outside selected service.configuration)
          (apply outside selected expected service)
unfolding apply
apply-either outside selected expected service s =
    elim (Result-cases (check_apply outside selected expected service)) [
      | inr (e, h) ↦
          rw (h, apply) (inl (record { same_memory = refl; same_disk = refl; served = inl s }))
      | inl (u, h) ↦ elim (Bool-cases (mode outside service.configuration == selected)) [
        | inl b ↦
            rw (h, apply, b) (inl (record { same_memory = refl; same_disk = refl; served = inl s }))
        | inr b ↦
            rw (h, apply, b)
              (change_mode-either outside (selected_config outside selected service.configuration)
                service s)
      ]
    ]
