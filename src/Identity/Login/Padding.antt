-- ===== src/Identity/Login/Padding.antt =====
-- The name by which attempts are counted is not the key by which the user is found.
use expediente.Base.{◌≡◌, ap, ◌∙◌, String}
use expediente.Domain.Text.{normalize_username, map_runes}
use expediente.Domain.Text.Padding.{padded, trim_space-padded, trim_space-nil, sanitize_text-padded}
use expediente.Identity.{Service}
use expediente.Identity.Login.{login_identifier, login_key}

-- Behind 80 spaces every username finds the user that it finds without them, while its attempts are
-- counted and penalised under the empty name.
pub padded_login :
    (service : Service) (username : String)
    → (login_key service (padded 80 username) ≡ login_key service username)
      × (login_identifier service (padded 80 username) ≡ "")
unfolding login_key login_identifier normalize_username map_runes
padded_login service username = (
  ap (map_runes service.lower) (trim_space-padded 80 username),
  ap (normalize_username service.lower) (sanitize_text-padded 79 username)
      ∙ ap (map_runes service.lower) (trim_space-padded 80 "" ∙ trim_space-nil),
)
