-- ===== src/Identity/Bootstrap.antt =====
-- internal/identity/service.go, Bootstrap: the first administrator of an installation.
pub mod First
use expediente.Base.{
  Bool, true, false, not, String, String_eq, List, [], ◌∷◌, ◌++◌, some, ◌==◌, is_none,
}
use expediente.Domain.{
  Instant, Result, ok, err, ◌>>=◌, ◌>>◌, require, invalid_username, password_policy,
  invalid_request, bootstrap_complete, bootstrap_conflict,
}
use expediente.Domain.Text.{sanitize_text, trim_space, valid_username, valid_password}
use expediente.Identity.{no_subject, Service, Store, UserRow, append_audit, write, text}
use expediente.Identity.Users.{new_user, insert_user, assignments}

unfoldable pub no_users : List UserRow → Bool
no_users [] = true
no_users (_ ∷ _) = false

-- The checks before the transaction; the result is the hash.
unfoldable pub check_bootstrap : Service → String → String → String → Result String
check_bootstrap service username display_name password = do
  require (valid_username service.lower username) invalid_username
  require (valid_password password) password_policy
  require (not (trim_space display_name == "")) invalid_request
  service.hash password

-- The user's row and its role, the mark of the bootstrap and the audit event.
unfoldable pub bootstrap_transaction :
    Instant → UserRow → String → Store → Result (Unit {0} × Store)
unfolding no_users
bootstrap_transaction now row request_id store = do
  require (is_none store.bootstrap) bootstrap_complete
  require (no_users store.users) bootstrap_conflict
  inserted ← insert_user row store
  ok (
    tt,
    append_audit now
        (record {
          event_type = "installation.bootstrapped";
          subject = no_subject;
          actor_user_id = "";
          system_actor = false;
          session_id = "";
          metadata = record { request_id = request_id; observed_ip = "local"; user_agent = "" };
          details = ("user_id", text row.id) ∷ [];
        })
        (record inserted {
          roles = inserted.roles ++ assignments row.id ("installation_admin" ∷ []);
          bootstrap = some (row.id, now);
        }),
  )

-- `Bootstrap`, with the fresh ids of the user and of the request.
unfoldable pub bootstrap :
    Service
    → Instant
    → String
    → String
    → String
    → String
    → String
    → Store
    → Result (Unit {0}) × Store
bootstrap service now user_id request_id username display_name password store =
    elim (check_bootstrap service username display_name password) [
      | err e ↦ (err e, store)
      | ok password_hash ↦
          write
            (bootstrap_transaction now
              (new_user service now user_id username (sanitize_text display_name 120) password_hash)
              request_id)
            store
    ]
