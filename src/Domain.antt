-- ===== src/Domain.antt =====
-- internal/domain/domain.go and the failures of the use cases, by their codes. The texts shown to
-- the user and the HTTP status beside each code are left out.
pub mod Text
use expediente.Base.{
  ℕ, ◌*◌, ◌+◌, Bool, true, false, ◌||◌, String, List, [], ◌∷◌, ◌≡◌, refl, ◌⊎◌, inl, inr, ◌==◌,
  String_eq, if◌then◌else◌,
}

-- An instant, in microseconds since the year 0: `TimeLayout` prints a fixed number of digits, so
-- that printed timestamps compare as these numbers do.
abbrev pub Instant : Type 0
Instant = ℕ

abbrev pub second : ℕ
second = 1000000

abbrev pub minute : ℕ
minute = 60 * second

abbrev pub hour : ℕ
hour = 60 * minute

pub data Failure : Type 0 where
  invalid_username password_policy invalid_request rate_limited authentication_failed : Failure
  session_required session_replaced session_expired session_revoked forbidden not_found : Failure
  username_exists precondition_required version_conflict last_admin_required : Failure
  current_password_incorrect admin_not_found bootstrap_complete bootstrap_conflict : Failure
  -- `sql.ErrNoRows`, a refused SQLite constraint, and an error of the password hasher
  no_rows constraint hasher_error : Failure
  -- A failure of another code, and the errors of the operating system and of a context
  coded : String → Failure
  path_denied path_missing interrupted deadline_exceeded source_error : Failure

pub data Result {ℓ} (A : Type ℓ) : Type ℓ where
  ok : A → Result A
  err : Failure → Result A

infixl 5 ◌>>=◌ ◌>>◌
abbrev pub ◌>>=◌ {κ μ} :
    {Read : Type κ} {Made : Type μ} (step : Result Read) (next : Read → Result Made) → Result Made
err failure >>= next = err failure
ok value >>= next = next value

-- The two parts of a chain of steps that succeeded.
pub bind-eq-ok {κ μ} :
    {Read : Type κ} {Made : Type μ} (step : Result Read) (next : Read → Result Made) {made : Made}
    → (step >>= next) ≡ ok made
    → (value : Read) × (step ≡ ok value) × (next value ≡ ok made)
bind-eq-ok (err failure) next h = cc
bind-eq-ok (ok value) next h = (value, refl, h)

abbrev pub ◌>>◌ {κ} : {Made : Type κ} (step : Result (Unit {0})) (rest : Result Made) → Result Made
step >> rest = step >>= λ done. rest

pub ok-injective {ℓ} : {A : Type ℓ} {a b : A} → ok a ≡ ok b → a ≡ b
ok-injective h = cc

pub Result-cases {ℓ} :
    {A : Type ℓ} (r : Result A) → ((a : A) × (r ≡ ok a)) ⊎ ((e : Failure) × (r ≡ err e))
Result-cases (ok a) = inl (a, refl)
Result-cases (err e) = inr (e, refl)

-- `if !condition { return failure }`
abbrev pub require : Bool → Failure → Result (Unit {0})
require true e = ok tt
require false e = err e

pub require-eq-ok : (b : Bool) (e : Failure) {u : Unit {0}} → require b e ≡ ok u → b ≡ true
require-eq-ok true e h = refl
require-eq-ok false e h = cc

pub record RequestMetadata : Type 0 where
  pub request_id : String
  pub observed_ip : String
  pub user_agent : String

pub record User : Type 0 where
  pub id : String
  pub username : String
  pub display_name : String
  pub disabled : Bool
  pub revision : ℕ
  pub created_at : Instant
  pub role_ids : List String
  pub permissions : List String

pub record Principal : Type 0 where
  pub user : User
  pub session_id : String
  pub token_digest : String
  pub credential_version : ℕ
  pub csrf_token_digest : String
  pub expires_at : Instant

unfoldable pub contains : List String → String → Bool
contains [] permission = false
contains (granted ∷ rest) permission =
    if granted == permission then true else contains rest permission

-- `Principal.Can`
unfoldable pub can : Principal → String → Bool
unfolding contains
can principal permission = contains principal.user.permissions permission
