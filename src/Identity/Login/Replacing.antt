-- ===== src/Identity/Login/Replacing.antt =====
-- The table of sessions while a login replaces the open session of its user.
use expediente.Base.{
  false, String, String_eq, List, [], ◌∷◌, none, some, find_row, update_rows, updated, All, All-map,
  All-update_rows, ◌≡◌, ◌≢◌, refl, inl, inr, arith, Bool-cases, Option-cases, beq_refl,
}
use expediente.Domain.{Instant, RequestMetadata}
use expediente.Identity.{Service, Store, SessionRow, CloseReason}
use expediente.Identity.Sessions.{is_open_session, is_open_of, closed_as}
use expediente.Identity.Sessions.Closing.{SameRest, close_session-sessions, close_session-rest}
use expediente.Identity.Login.{replacing_reason, replace_session}

-- The unique index `sessions_one_open_per_user`.
abbrev pub OneOpen : List SessionRow → Type 0
OneOpen [] = Unit
OneOpen (x ∷ xs) =
    (x.closed ≡ none → All (λ y. y.closed ≡ none → y.user_id ≢ x.user_id) xs) × OneOpen xs

module _ (now : Instant) (user_id : String) where
  not_open-closed_as :
      (id : String) (reason : CloseReason) (y : SessionRow)
      → is_open_of user_id y ≡ false
      → is_open_of user_id (updated (is_open_session id) (closed_as now reason) y) ≡ false
  not_open-closed_as id reason y h = ground arith

  open_of-elsewhere :
      (x y : SessionRow)
      → x.user_id ≡ user_id
      → (y.closed ≡ none → y.user_id ≢ x.user_id)
      → is_open_of user_id y ≡ false
  open_of-elsewhere x y mine h = elim (Option-cases y.closed) [
    | inl e ↦ ground (arith, h e, String_eq.beq_iff y.user_id user_id)
    | inr (c, e) ↦ ground arith
  ]

  -- Closing the open session that the query finds leaves the user none.
  none_open :
      (reason : CloseReason) (xs : List SessionRow) (previous : SessionRow)
      → OneOpen xs
      → find_row (is_open_of user_id) xs ≡ some previous
      → All
          (λ y. is_open_of user_id y ≡ false)
          (update_rows (is_open_session previous.id) (closed_as now reason) xs)
  unfolding find_row update_rows
  none_open reason [] previous one f = cc
  none_open reason (x ∷ xs) previous one f = elim (Bool-cases (is_open_of user_id x)) [
    | inl e ↦
        let same : x ≡ previous = ground arith in
        (
          rw (← same) (ground (arith, beq_refl x.id)),
          All-update_rows (λ y. is_open_of user_id y ≡ false) (is_open_session previous.id)
              (closed_as now reason) xs (not_open-closed_as previous.id reason)
              (All-map (λ y. y.closed ≡ none → y.user_id ≢ x.user_id)
                (λ y. is_open_of user_id y ≡ false) xs
                (λ y. open_of-elsewhere x y (ground (arith, String_eq.beq_iff x.user_id user_id)))
                (one.0 (ground arith))),
        )
    | inr e ↦ (
      not_open-closed_as previous.id reason x e,
      none_open reason xs previous one.1 (ground arith),
    )
  ]

  none_open-already :
      (xs : List SessionRow)
      → find_row (is_open_of user_id) xs ≡ none
      → All (λ y. is_open_of user_id y ≡ false) xs
  unfolding find_row
  none_open-already [] f = tt
  none_open-already (x ∷ xs) f = elim (Bool-cases (is_open_of user_id x)) [
    | inl e ↦ absurd (ground arith)
    | inr e ↦ (e, none_open-already xs (ground arith))
  ]

-- `service.closeSession` on the session that the login replaces.
module _ (service : Service) (now : Instant) (user_id : String) (metadata : RequestMetadata)
    (store : Store) where
  abbrev reason_for : SessionRow → CloseReason
  reason_for = replacing_reason service now

  pub replace_session-sessions :
      (previous : SessionRow)
      → find_row (is_open_of user_id) store.sessions ≡ some previous
      → (replace_session service now user_id metadata store).sessions
        ≡ update_rows
            (is_open_session previous.id)
            (closed_as now (reason_for previous))
            store.sessions
  unfolding replace_session
  replace_session-sessions previous e =
      rw (e, replace_session)
        (close_session-sessions now (reason_for previous) metadata
          (record { user_id = user_id; session_id = "" }) previous.id store)

  pub replace_session-none :
      find_row (is_open_of user_id) store.sessions ≡ none
      → replace_session service now user_id metadata store ≡ store
  unfolding replace_session
  replace_session-none e = rw (e, replace_session)

  pub replace_session-none_open :
      OneOpen store.sessions
      → All
          (λ y. is_open_of user_id y ≡ false)
          (replace_session service now user_id metadata store).sessions
  replace_session-none_open one =
      elim (Option-cases (find_row (is_open_of user_id) store.sessions)) [
        | inl e ↦ rw (replace_session-none e) (none_open-already now user_id store.sessions e)
        | inr (previous, e) ↦
            rw (replace_session-sessions previous e)
              (none_open now user_id (reason_for previous) store.sessions previous one e)
      ]

  pub replace_session-All {κ} :
      (P : SessionRow → Type κ)
      → ((y : SessionRow) (reason : CloseReason) → P y → P (closed_as now reason y))
      → All P store.sessions
      → All P (replace_session service now user_id metadata store).sessions
  replace_session-All P keeps a =
      elim (Option-cases (find_row (is_open_of user_id) store.sessions)) [
        | inl e ↦ rw (replace_session-none e) a
        | inr (previous, e) ↦ rw (replace_session-sessions previous e) (
            All-update_rows P (is_open_session previous.id) (closed_as now (reason_for previous))
              store.sessions (kept previous) a)
      ]
    where
      kept :
          (previous y : SessionRow)
          → P y
          → P (updated (is_open_session previous.id) (closed_as now (reason_for previous)) y)
      kept previous y py = elim (Bool-cases (is_open_session previous.id y)) [
        | inl e ↦ rw e (keeps y (reason_for previous) py)
        | inr e ↦ rw e py
      ]

  pub replace_session-rest : SameRest store (replace_session service now user_id metadata store)
  unfolding replace_session
  replace_session-rest = elim (Option-cases (find_row (is_open_of user_id) store.sessions)) [
    | inl e ↦
        rw (e, replace_session)
          (record { users = refl; roles = refl; throttles = refl; attempts = refl })
    | inr (previous, e) ↦
        rw (e, replace_session)
          (close_session-rest now (reason_for previous) metadata
            (record { user_id = user_id; session_id = "" }) previous.id store)
  ]
