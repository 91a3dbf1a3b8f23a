-- ===== src/Tenancy/Isolation.antt =====
-- An organisation sees its own events, and nothing of the others'.
use ticketing_app.Prelude.{
  ℕ, ◌≡◌, refl, sym, ap, ◌∙◌, Option, none, some, List, [], ◌∷◌, select, first, ◌==◌, ◌&&◌, arith,
}
use ticketing_app.Schema.{Db, Event}
use ticketing_app.Store.{not_found}
use ticketing_app.Store.Exec.{World, of_option}
use ticketing_app.Tenancy.Scope.{organisation, event_scope_filter, load_scoped_event}

-- A search in a scope is a search among the events of the scope.
first-scoped :
    (id own : ℕ) (es : List Event)
    → first (λ (e : Event). e.id == id && e.organisation_id == own) es
      ≡ first (λ (e : Event). e.id == id) (select (λ (e : Event). e.organisation_id == own) es)
first-scoped id own [] = refl
first-scoped id own (e ∷ es) = ground (arith, first-scoped id own es)

-- The events of one organisation.
abbrev pub events_of : ℕ → Db → List Event
events_of own db = select (λ (e : Event). e.organisation_id == own) db.events

answered :
    (o : Option Event) (w v : World) → (of_option o not_found w).0 ≡ (of_option o not_found v).0
answered none w v = refl
answered (some e) w v = refl

-- What an organisation is answered depends on its own events alone: from two databases with the same
-- ones it gets the same answer, so that another's event is like one that does not exist.
pub load_scoped_event-isolated :
    (own id : ℕ) (w v : World)
    → events_of own w.db ≡ events_of own v.db
    → (load_scoped_event (organisation own) id w).0 ≡ (load_scoped_event (organisation own) id v).0
unfolding load_scoped_event event_scope_filter
load_scoped_event-isolated own id w v same =
    let found : first (λ (e : Event). e.id == id && e.organisation_id == own) w.db.events
        ≡ first (λ (e : Event). e.id == id && e.organisation_id == own) v.db.events =
      first-scoped id own w.db.events
      ∙ ap (first (λ (e : Event). e.id == id)) same
      ∙ sym (first-scoped id own v.db.events) in
    ap (λ (o : Option Event). (of_option o not_found w).0) found
    ∙ answered (first (λ (e : Event). e.id == id && e.organisation_id == own) v.db.events) w v
