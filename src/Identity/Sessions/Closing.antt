-- ===== src/Identity/Sessions/Closing.antt =====
-- What closing sessions does to the table, and to the principals that are loaded from it.
use expediente.Base.{
  true, false, String, String_eq, ℕ_eq, List, [], ◌∷◌, is_none, find_row, update_rows, updated,
  update_rows-none, find_row-none, All, All-map, ◌≡◌, ◌≢◌, ◌⊎◌, refl, sym, ap, ap₂, ◌∙◌, inl, inr,
  arith, Bool-cases, Option-cases, beq_refl,
}
use expediente.Domain.{Instant, RequestMetadata}
use expediente.Identity.{Store, SessionRow, CloseReason, append_audit}
use expediente.Identity.Sessions.{
  Actor, is_open_session, is_open_of, closed_as, close_session, open_sessions, close_all,
  close_user_sessions,
}

-- The primary key of the table.
abbrev pub Distinct : List SessionRow → Type 0
Distinct [] = Unit
Distinct (x ∷ xs) = All (λ y. y.id ≢ x.id) xs × Distinct xs

-- The tables that closing sessions leaves alone.
pub record SameRest (store store' : Store) : Type 0 where
  pub users : store'.users ≡ store.users
  pub roles : store'.roles ≡ store.roles
  pub throttles : store'.throttles ≡ store.throttles
  pub attempts : store'.attempts ≡ store.attempts

module _ (now : Instant) (reason : CloseReason) where
  abbrev pub closing : String → List SessionRow → List SessionRow
  closing id = update_rows (is_open_session id) (closed_as now reason)

  abbrev closing_all : List String → List SessionRow → List SessionRow
  closing_all [] xs = xs
  closing_all (id ∷ ids) xs = closing_all ids (closing id xs)

  abbrev closing_one : List String → SessionRow → SessionRow
  closing_one [] x = x
  closing_one (id ∷ ids) x = closing_one ids (updated (is_open_session id) (closed_as now reason) x)

  closing_all-nil : (ids : List String) → closing_all ids [] ≡ []
  unfolding update_rows
  closing_all-nil [] = refl
  closing_all-nil (id ∷ ids) = closing_all-nil ids

  closing_all-cons :
      (ids : List String) (x : SessionRow) (xs : List SessionRow)
      → closing_all ids (x ∷ xs) ≡ closing_one ids x ∷ closing_all ids xs
  unfolding update_rows
  closing_all-cons [] x xs = refl
  closing_all-cons (id ∷ ids) x xs = closing_all-cons ids _ (closing id xs)

  -- A row that none of the identifiers names, or that is closed, stays.
  closing_one_apart :
      (ids : List String) (x : SessionRow)
      → (is_none x.closed ≡ false) ⊎ All (λ id. x.id ≢ id) ids
      → closing_one ids x ≡ x
  closing_one_apart [] x h = refl
  closing_one_apart (id ∷ ids) x h = rw (miss h) (closing_one_apart ids x (later h))
    where
      miss :
          (is_none x.closed ≡ false) ⊎ All (λ i. x.id ≢ i) (id ∷ ids) → is_open_session id x ≡ false
      miss (inl e) = ground (arith)
      miss (inr a) = ground (arith, String_eq.beq_iff x.id id, a.0)

      later :
          (is_none x.closed ≡ false) ⊎ All (λ i. x.id ≢ i) (id ∷ ids)
          → (is_none x.closed ≡ false) ⊎ All (λ i. x.id ≢ i) ids
      later (inl e) = inl e
      later (inr a) = inr a.1

  -- The identifiers that the query selects are those of rows of the table.
  All-open_sessions :
      (P : String → Type 0) (user_id : String) (xs : List SessionRow)
      → All (λ y. P y.id) xs
      → All P (open_sessions user_id xs)
  unfolding open_sessions
  All-open_sessions P user_id [] a = tt
  All-open_sessions P user_id (x ∷ xs) a = elim (Bool-cases (is_open_of user_id x)) [
    | inl e ↦ rw e (a.0, All-open_sessions P user_id xs a.1)
    | inr e ↦ rw e (All-open_sessions P user_id xs a.1)
  ]

  closing-apart :
      (id : String) (xs : List SessionRow) → All (λ y. y.id ≢ id) xs → closing id xs ≡ xs
  closing-apart id xs a = update_rows-none _ _ xs (
      find_row-none _ xs (
        All-map (λ y. y.id ≢ id) (λ y. is_open_session id y ≡ false) xs
          (λ y h. ground (arith, String_eq.beq_iff y.id id, h)) a))

  open_of-open :
      (user_id : String) (x : SessionRow)
      → is_open_of user_id x ≡ true
      → is_open_session x.id x ≡ true
  open_of-open user_id x e = ground (arith, beq_refl x.id)

  closing_one-own :
      (x : SessionRow) (ids : List String)
      → is_open_session x.id x ≡ true
      → closing_one (x.id ∷ ids) x ≡ closed_as now reason x
  closing_one-own x ids e = rw e (closing_one_apart ids (closed_as now reason x) (inl refl))

  closing_all-open_sessions :
      (user_id : String) (xs : List SessionRow)
      → Distinct xs
      → closing_all (open_sessions user_id xs) xs
        ≡ update_rows (is_open_of user_id) (closed_as now reason) xs
  unfolding open_sessions update_rows
  closing_all-open_sessions user_id [] d = refl
  closing_all-open_sessions user_id (x ∷ xs) d = elim (Bool-cases (is_open_of user_id x)) [
    | inl e ↦ rw e (
        closing_all-cons (x.id ∷ open_sessions user_id xs) x xs
        ∙ ap₂ ◌∷◌ (closing_one-own x (open_sessions user_id xs) (open_of-open user_id x e)) (
            ap (closing_all (open_sessions user_id xs)) (closing-apart x.id xs d.0)
            ∙ closing_all-open_sessions user_id xs d.1))
    | inr e ↦ rw e (
        closing_all-cons (open_sessions user_id xs) x xs
        ∙ ap₂ ◌∷◌
            (closing_one_apart (open_sessions user_id xs) x (
              inr (
                All-open_sessions (λ id. x.id ≢ id) user_id xs
                  (All-map (λ y. y.id ≢ x.id) (λ y. x.id ≢ y.id) xs (λ y h k. h (sym k)) d.0))))
            (closing_all-open_sessions user_id xs d.1))
  ]

  module _ (metadata : RequestMetadata) (actor : Actor) where
    pub close_session-sessions :
        (id : String) (store : Store)
        → (close_session now id reason metadata actor store).sessions ≡ closing id store.sessions
    unfolding close_session append_audit
    close_session-sessions id store =
        elim (Option-cases (find_row (is_open_session id) store.sessions)) [
          | inl e ↦ rw (e, close_session) (sym (update_rows-none _ _ store.sessions e))
          | inr (session, e) ↦ rw (e, close_session)
        ]

    close_all-sessions :
        (ids : List String) (store : Store)
        → (close_all now ids reason metadata actor store).sessions ≡ closing_all ids store.sessions
    unfolding close_all
    close_all-sessions [] store = refl
    close_all-sessions (id ∷ ids) store =
        close_all-sessions ids (close_session now id reason metadata actor store)
        ∙ ap (closing_all ids) (close_session-sessions id store)

    pub close_session-rest :
        (id : String) (store : Store)
        → SameRest store (close_session now id reason metadata actor store)
    unfolding close_session append_audit
    close_session-rest id store = ground arith

    close_all-rest :
        (ids : List String) (store : Store)
        → SameRest store (close_all now ids reason metadata actor store)
    unfolding close_all
    close_all-rest [] store = record {
      users = refl;
      roles = refl;
      throttles = refl;
      attempts = refl;
    }
    close_all-rest (id ∷ ids) store =
        let here = close_session-rest id store in
        let rest = close_all-rest ids (close_session now id reason metadata actor store) in
        record {
          users = rest.users ∙ here.users;
          roles = rest.roles ∙ here.roles;
          throttles = rest.throttles ∙ here.throttles;
          attempts = rest.attempts ∙ here.attempts;
        }

    -- If no two sessions have one identifier, `closeUserSessions` closes every open session of the
    -- user, for the given reason, and changes no other session.
    pub close_user_sessions-sessions :
        (user_id : String) (store : Store)
        → Distinct store.sessions
        → (close_user_sessions now user_id reason metadata actor store).sessions
          ≡ update_rows (is_open_of user_id) (closed_as now reason) store.sessions
    unfolding close_user_sessions
    close_user_sessions-sessions user_id store d =
        close_all-sessions (open_sessions user_id store.sessions) store
        ∙ closing_all-open_sessions user_id store.sessions d

    pub close_user_sessions-rest :
        (user_id : String) (store : Store)
        → SameRest store (close_user_sessions now user_id reason metadata actor store)
    unfolding close_user_sessions
    close_user_sessions-rest user_id store =
        close_all-rest (open_sessions user_id store.sessions) store
