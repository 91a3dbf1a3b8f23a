-- ===== src/Tenancy/Scope.antt =====
-- The scope of a request, and what is read and written in it.
use ticketing_app.Prelude.{
  ℕ, String, Bool, true, false, Option, none, some, List, map, select, first, update_where, str_eq,
  ◌==◌, ◌&&◌, if◌then◌else◌,
}
use ticketing_app.Schema.{Organisation, Member, Event}
use ticketing_app.Store.{not_found, forbidden}
use ticketing_app.Store.Tx
use ticketing_app.Store.Exec.{Exec, pure, throw, gets, of_option, with_transaction, ◌>>=◌, ◌>>◌}
use ticketing_app.Inventory.Seats.{is_null}

-- AdminScope
pub data AdminScope : Type 0 where
  platform : AdminScope
  organisation : ℕ → AdminScope

-- DEFAULT_ORGANISATION_SLUG
abbrev pub default_organisation_slug : String
default_organisation_slug = "eventify"

abbrev pub scope_of : Option Member → Option AdminScope
scope_of none = none
scope_of (some m) = some (organisation m.organisation_id)

-- scopeForUser
unfoldable pub scope_for_user : String → Exec (Option AdminScope)
scope_for_user uid = do
  membership ← gets (λ db. first (λ (m : Member). str_eq m.user_id uid) db.members)
  pure (scope_of membership)

-- eventScopeFilter
unfoldable pub event_scope_filter : AdminScope → Event → Bool
event_scope_filter platform e = true
event_scope_filter (organisation id) e = e.organisation_id == id

-- loadScopedEvent
unfoldable pub load_scoped_event : AdminScope → ℕ → Exec Event
unfolding event_scope_filter
load_scoped_event scope event_id = do
  found ←
      gets (λ db. first (λ (e : Event). e.id == event_id && event_scope_filter scope e) db.events)
  of_option found not_found

-- assertEventInScope
unfoldable pub assert_event_in_scope : AdminScope → ℕ → Exec Unit
unfolding load_scoped_event
assert_event_in_scope scope event_id = load_scoped_event scope event_id >> pure tt

-- organisationForNewEvent
unfoldable pub organisation_for_new_event : AdminScope → Exec ℕ
organisation_for_new_event (organisation id) = pure id
organisation_for_new_event platform = do
  fallback ←
      gets (λ db.
        first (λ (o : Organisation). str_eq o.slug default_organisation_slug) db.organisations)
  found ← of_option fallback forbidden
  pure found.id

-- What `verifyOrganisation` returns
pub record Verification : Type 0 where
  pub id : ℕ
  pub verified : Bool

abbrev pub verify_row : Bool → ℕ → Organisation → Organisation
verify_row verified now o = record o { verified_at = if verified then some now else none }

-- the UPDATE with its RETURNING
unfoldable pub update_organisation : ℕ → Bool → ℕ → Tx.Tx (List Organisation)
update_organisation id verified now =
    Tx.◌>>=◌ (Tx.gets (λ db. select (λ (o : Organisation). o.id == id) db.organisations)) (λ rows.
      Tx.◌>>◌
        (Tx.modify (λ db. record db {
          organisations = update_where (λ o. o.id == id) (verify_row verified now) db.organisations;
        }))
        (Tx.pure (map (verify_row verified now) rows)))

abbrev pub is_verified : Organisation → Bool
is_verified o = if is_null o.verified_at then false else true

-- verifyOrganisation
unfoldable pub verify_organisation : AdminScope → ℕ → Bool → ℕ → Exec Verification
unfolding update_organisation
verify_organisation (organisation own) id verified now = throw forbidden
verify_organisation platform id verified now = do
  rows ← with_transaction (update_organisation id verified now)
  updated ← of_option (first (λ _. true) rows) not_found
  pure (record { id = updated.id; verified = is_verified updated })
