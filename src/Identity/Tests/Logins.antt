-- ===== src/Identity/Tests/Logins.antt =====
-- Attempts, penalties and logins at that installation.
use expediente.Base.{
  refl, true, false, some, [], ◌∷◌, ◌≡◌, String_eq, ap, ◌∙◌, arith, List, ◌*◌, ◌+◌, find_row,
  ne_of_beq, All, ◌≤◌, max, inr, update_rows, inl,
}
use expediente.Identity.Sessions.{load_principal, is_open_of, user_by, has_id}
use expediente.Identity.{Store, identifier, scope_beq, ip}
use expediente.Domain.{rate_limited, ok, err, second, Result, authentication_failed}
use expediente.Identity.Login.{
  Candidate, login_identifier, login_transaction, find_candidate, login_key, LoginResult, login,
}
use expediente.Identity.Login.Opening.{CanOpen}
use expediente.Identity.Login.Outcomes.{
  Opens, replaced_failure, login_transaction_opens, login_transaction_replaces,
  login_wrong_password, login_transaction_stale, RefusedLogin,
}
use expediente.Identity.Throttle.Limits.{
  Decides, reserve-Decides, reserve_leaves_others, is_denied, name_row, address_row,
}
use expediente.Identity.Throttle.{
  is_bucket, reserve_login_attempt, penalize_login, penalty, release_successful_attempt,
}
use expediente.Identity.Throttle.Traffic.{
  success, Traffic, count_grants, attempt, InWindow, failure, count_grants-le-limit,
}
use expediente.Domain.Text.{
  normalize_username, map_runes, trim_space, trim_left, trim_right, sanitize_text, is_control,
  is_space,
}
use expediente.Identity.Throttle.Penalties.{penalized_refused, penalty_bounds, release-reserve}
use expediente.Domain.Text.Padding.{padded}
use expediente.Identity.Login.Padding.{padded_login}
use expediente.Identity.Tests.Office.{
  service, noon, ana, luis, session_of_ana, row_of_ana, office, request, fresh, candidate,
  selects_ana,
}

can_open : CanOpen service noon fresh candidate office ana
unfolding find_row
can_open = record {
  found = refl;
  same_version = refl;
  enabled = refl;
  one_open = ((λ _. ((λ _. ne_of_beq "u2" "u1" refl), tt)), ((λ _. tt), tt));
  fresh_id = (ne_of_beq "s1" "s3" refl, (ne_of_beq "s2" "s3" refl, tt));
  fresh_token = (ne_of_beq "t1" "t3" refl, (ne_of_beq "t2" "t3" refl, tt));
  some_hours = omega arith;
  some_minutes = omega arith;
  started = omega arith;
}

login_transaction_opens_example :
    Opens service noon fresh candidate office
      (login_transaction service noon fresh "ana" candidate true request office)
login_transaction_opens_example =
    login_transaction_opens service noon fresh "ana" candidate request office ana can_open

ana_opens :
    Opens service noon fresh candidate office
      (login_transaction service noon fresh "ana" candidate true request office)
ana_opens = login_transaction_opens service noon fresh "ana" candidate request office ana can_open

ana_is_open : find_row (is_open_of "u1") office.sessions ≡ some session_of_ana
unfolding find_row
ana_is_open = refl

login_transaction_replaces_example :
    load_principal service (noon + 1) "t1" ana_opens.store'
    ≡ err (replaced_failure service noon session_of_ana)
login_transaction_replaces_example =
    login_transaction_replaces service noon (noon + 1) fresh "ana" "t1" candidate request office
      ana_opens.store' ana ana session_of_ana ana_opens.result can_open ana_is_open selects_ana
      ana_opens.succeeds

reserve-Decides_example :
    Decides service noon "ana" request office
      (reserve_login_attempt service noon "ana" request office)
reserve-Decides_example = reserve-Decides service noon "ana" request office

reserve_leaves_others_example :
    find_row
      (is_bucket identifier "luis")
      (reserve_login_attempt service noon "ana" request office).1.throttles
    ≡ find_row (is_bucket identifier "luis") office.throttles
reserve_leaves_others_example =
    reserve_leaves_others service noon "ana" request office identifier "luis"
      (inr (ne_of_beq "10.0.0.2" "luis" refl)) (inr (ne_of_beq "ana" "luis" refl))

abbrev traffic : List Traffic
traffic =
    attempt (noon + 1) "ana" request
    ∷ failure (noon + 2) "ana"
    ∷ attempt (noon + 3) "ana" request
    ∷ success "luis" request
    ∷ attempt (noon + 10 * second) "ana" request
    ∷ []

finds_row_of_ana : find_row (is_bucket identifier "ana") office.throttles ≡ some row_of_ana
unfolding find_row is_bucket scope_beq
finds_row_of_ana = refl

in_window : All (InWindow service "ana" noon) traffic
in_window = (omega arith, (tt, (omega arith, (ne_of_beq "luis" "ana" refl, (omega arith, tt)))))

count_grants-le-limit_example : count_grants service "ana" traffic office + 3 ≤ max 5 3
count_grants-le-limit_example =
    count_grants-le-limit service "ana" row_of_ana traffic office finds_row_of_ana in_window

ana_is_free : is_denied service noon "ana" request office.throttles ≡ false
unfolding find_row is_bucket scope_beq
ana_is_free = refl

named_ana : login_identifier service "ana" ≡ "ana"
unfolding login_identifier normalize_username map_runes trim_space trim_left trim_right
    sanitize_text is_control is_space
named_ana = refl

free_for_ana :
    is_denied service noon (login_identifier service "ana") request office.throttles ≡ false
free_for_ana =
    ap (λ name. is_denied service noon name request office.throttles) named_ana ∙ ana_is_free

finds_ana : find_candidate service "ana" office ≡ candidate
unfolding find_candidate user_by login_key normalize_username map_runes trim_space trim_left
    trim_right is_space find_row
finds_ana = refl

wrong_for_ana :
    service.verify "secreto0" (find_candidate service "ana" office).password_hash ≡ ok false
wrong_for_ana = ap (λ (c : Candidate). service.verify "secreto0" c.password_hash) finds_ana

window_of_ana :
    (name_row service noon
      (login_identifier service "ana")
      request
      office.throttles).window_started_at
    ≡ noon
unfolding find_row is_bucket scope_beq
window_of_ana =
    ap (λ name. (name_row service noon name request office.throttles).window_started_at) named_ana

abbrev wrong_login : Result LoginResult × Store
wrong_login = login service noon (noon + 2) fresh "ana" "secreto0" request office

login_wrong_password_example :
    (wrong_login.0 ≡ err authentication_failed)
    × (wrong_login.1.sessions ≡ office.sessions)
    × (wrong_login.1.users ≡ office.users)
    × ((reserve_login_attempt service
          (noon + 3)
          (login_identifier service "ana")
          request
          wrong_login.1).0
        ≡ err rate_limited)
login_wrong_password_example =
    login_wrong_password service noon (noon + 2) (noon + 3) fresh "ana" "secreto0" request request
      office free_for_ana wrong_for_ana (omega arith) (omega (arith, window_of_ana))

abbrev penalized_office : Store
penalized_office = record office {
  throttles = record row_of_ana { next_allowed_at = noon + 4 * second } ∷ [];
}

penalizes_ana : penalize_login service noon "ana" office ≡ ok penalized_office
unfolding penalize_login find_row is_bucket scope_beq update_rows penalty
penalizes_ana = refl

penalty_of_ana : penalty 3 ≡ 4 * second
unfolding penalty
penalty_of_ana = refl

penalized_refused_example :
    (reserve_login_attempt service (noon + 3 * second) "ana" request penalized_office).0
    ≡ err rate_limited
penalized_refused_example =
    penalized_refused service "ana" noon (noon + 3 * second) request office penalized_office
      row_of_ana finds_row_of_ana penalizes_ana (omega (arith, penalty_of_ana)) (omega arith)

abbrev released_office : Store
released_office =
    release_successful_attempt service "ana" request
      (reserve_login_attempt service noon "ana" request office).1

release-reserve_example :
    (find_row (is_bucket identifier "ana") released_office.throttles
      ≡ some (name_row service noon "ana" request office.throttles))
    × (find_row (is_bucket ip "10.0.0.2") released_office.throttles
        ≡ some (address_row service noon "ana" request office.throttles))
release-reserve_example = release-reserve service "ana" noon request office ana_is_free

penalty_bounds_example : (second ≤ penalty 9) × (penalty 9 ≤ 64 * second)
penalty_bounds_example = penalty_bounds 9

padded_login_example :
    (login_key service (padded 80 "ana") ≡ login_key service "ana")
    × (login_identifier service (padded 80 "ana") ≡ "")
padded_login_example = padded_login service "ana"

abbrev changed_office : Store
changed_office = record penalized_office {
  users = record ana { credential_version = 2 } ∷ luis ∷ [];
}

changed_found :
    find_row (has_id "u1") changed_office.users ≡ some (record ana { credential_version = 2 })
unfolding find_row
changed_found = refl

changed_bucket :
    find_row (is_bucket identifier (service.digest "ana")) changed_office.throttles
    ≡ some (record row_of_ana { next_allowed_at = noon + 4 * second })
unfolding find_row is_bucket scope_beq
changed_bucket = refl

login_transaction_stale_example :
    RefusedLogin service noon "ana" "u1" request changed_office
      (login_transaction service noon fresh "ana" candidate true request changed_office)
login_transaction_stale_example =
    login_transaction_stale service noon fresh "ana" candidate request changed_office
      (record ana { credential_version = 2 })
      (record row_of_ana { next_allowed_at = noon + 4 * second }) changed_found
      (inl (λ e. omega (arith, e))) changed_bucket (ne_of_beq "u1" "" refl)
