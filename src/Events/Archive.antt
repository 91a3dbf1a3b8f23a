-- ===== src/Events/Archive.antt =====
-- `archivePastEvents`, and what it leaves of the listing.
use mathlib.Core.Path.{subst}
use ticketing_app.Prelude.{
  ℕ, ◌+◌, ◌*◌, ◌≤◌, ◌≡◌, refl, ap, String, Bool, true, false, some, List, [], ◌∷◌, map, select,
  update_where, ltb, leb, ◌&&◌, arith, Bool-cases, inl, inr,
}
use ticketing_app.Schema.{Db, Event, is_published}
use ticketing_app.Store.{ok}
use ticketing_app.Store.Tx.{Tx}
use ticketing_app.Inventory.Seats.{is_null}
use ticketing_app.Events.Listing.{event_ends_at, is_current, list_published_events, list_rows}

abbrev pub day_ms : ℕ
day_ms = 86400000

abbrev ends_long_ago : ℕ → ℕ → Event → Bool
ends_long_ago days now e = is_null e.archived_at && ltb (event_ends_at e + days * day_ms) now

abbrev archive_row : ℕ → Event → Event
archive_row now e = record e { archived_at = some now }

-- An entry of what `archivePastEvents` returns
pub record ArchivedEvent : Type 0 where
  pub id : ℕ
  pub slug : String

-- archivePastEvents
unfoldable pub archive_past_events : ℕ → ℕ → Tx (List ArchivedEvent)
archive_past_events days now db = ok (
  map (λ (e : Event). record { id = e.id; slug = e.slug })
      (select (ends_long_ago days now) db.events),
  record db { events = update_where (ends_long_ago days now) (archive_row now) db.events },
)

-- An update of rows that a selection leaves out, and still leaves out after, changes it nowhere.
select-update_where :
    {A : Type 0} (p q : A → Bool) (f : A → A)
    → ((x : A) → p x ≡ true → (q x ≡ false) × (q (f x) ≡ false))
    → (xs : List A) → select q (update_where p f xs) ≡ select q xs
select-update_where p q f out [] = refl
select-update_where p q f out (x ∷ xs) = elim (Bool-cases (p x)) [
  | inl e ↦
      let (before, after) = out x e in rw (e, before, after) (select-update_where p q f out xs)
  | inr e ↦ rw (e, select-update_where p q f out xs) refl
]

ended :
    (published fresh : Bool) (end age now later : ℕ)
    → now ≤ later
    → (fresh && ltb (end + age) now) ≡ true
    → (published && fresh && leb later end) ≡ false
ended true true end age now later h old = ground arith
ended true false end age now later h old = refl
ended false fresh end age now later h old = refl

gone : (published listed : Bool) → (published && false && listed) ≡ false
gone true listed = refl
gone false listed = refl

over :
    (days now later : ℕ) (e : Event)
    → now ≤ later
    → ends_long_ago days now e ≡ true
    → (is_current later e ≡ false) × (is_current later (archive_row now e) ≡ false)
over days now later e h old = (
  ended (is_published e.status) (is_null e.archived_at) (event_ends_at e) (days * day_ms) now later
      h old,
  gone (is_published e.status) (leb later (event_ends_at e)),
)

-- An update after which its condition fails has nothing left to do.
updated_again :
    {A : Type 0} (p : A → Bool) (f : A → A)
    → ((x : A) → p (f x) ≡ false)
    → (xs : List A)
    → (select p (update_where p f xs) ≡ [])
      × (update_where p f (update_where p f xs) ≡ update_where p f xs)
updated_again p f out [] = (refl, refl)
updated_again {A} p f out (x ∷ xs) =
    let (none_left, same) = updated_again p f out xs in
    elim (Bool-cases (p x)) [
      | inl old ↦ rw (old, out x) (none_left, ap (λ (r : List A). f x ∷ r) same)
      | inr new ↦ rw (new, new) (none_left, ap (λ (r : List A). x ∷ r) same)
    ]

ok-db : {A : Type 0} {x y : A × Db} → ok x ≡ ok y → x.1 ≡ y.1
ok-db e = cc

abbrev Quiet : (days now later : ℕ) (db db' : Db) → Type 0
Quiet days now later db db' =
    (list_published_events later db' ≡ list_published_events later db)
    × (archive_past_events days now db' ≡ ok ([], db'))

-- The archive takes nothing from what is listed as current, then or later, and a second sweep of
-- the same age at that instant archives nothing.
pub archive_past_events-list_published_events :
    (days now later : ℕ) (db : Db) {swept : List ArchivedEvent} {db' : Db}
    → now ≤ later
    → archive_past_events days now db ≡ ok (swept, db')
    → (list_published_events later db' ≡ list_published_events later db)
      × (archive_past_events days now db' ≡ ok ([], db'))
unfolding archive_past_events list_published_events
archive_past_events-list_published_events days now later db {db' = db'} h e =
    let (none_left, same) =
      updated_again (ends_long_ago days now) (archive_row now) (λ x. refl) db.events in
    subst (Quiet days now later db) (ok-db {A = List ArchivedEvent} e) (
      ap (list_rows db.organisations db.tiers) (
          select-update_where (ends_long_ago days now) (is_current later) (archive_row now)
            (λ x old. over days now later x h old) db.events),
      rw (none_left, same) refl,
    )
