-- ===== src/Booking/Create/Laws.antt =====
-- The idempotency of the creation of a booking (booking-service.ts, createRiderBooking).
use dazat_mobility.Base.{
  ℕ, suc, Bool, true, false, Option, none, some, List, [], ◌∷◌, ◌++◌, ◌≡◌, refl, ◌∙◌, ap, inl, inr,
  arith, Option-cases, Date,
}
use dazat_mobility.Base.Texts.{Text, text_eq}
use dazat_mobility.Base.Results.{Result, ok, require, ◌>>◌, Result-cases}
use dazat_mobility.Booking.Store.{
  Location, BookingSummary, created, CommandRow, Db, Principal, transaction,
}
use dazat_mobility.Booking.Transition.{read_booking_summary}
use dazat_mobility.Booking.Transition.Laws.{settle-ok}
use dazat_mobility.Booking.Create.{
  Requirement, CreateRiderBookingRequest, validate_location, insert_location_snapshot,
  insert_requirements, find_created, insert_booking, insert_rest, respond, store_booking,
  tell_created, create_statements, checked_request, create_rider_booking,
}

text_eq_refl : (s : Text) → text_eq s s ≡ true
unfolding text_eq
text_eq_refl [] = refl
text_eq_refl (c ∷ s) = ground (arith, text_eq_refl s)

-- A response that is added with a new key is the one that is found.
find_created-append :
    (key : Text) (cs : List CommandRow) (c : CommandRow) (s : BookingSummary)
    → find_created key cs ≡ none
    → c.idempotency_key ≡ key
    → c.response ≡ created s
    → find_created key (cs ++ c ∷ []) ≡ some s
unfolding find_created
find_created-append key [] c s new at_key stored = rw (at_key, stored, text_eq_refl key) refl
find_created-append key (d ∷ ds) c s new at_key stored =
    ground (arith, find_created-append key ds c s)

insert_location-commands :
    (l : Location) (db : Db) (n : ℕ) (after : Db)
    → insert_location_snapshot l db ≡ ok (n, after)
    → after.commands ≡ db.commands
unfolding insert_location_snapshot
insert_location-commands l db n after h = elim (Result-cases (validate_location l)) [
  | inl (u, valid) ↦ ground arith
  | inr (e, fails) ↦ absurd (ground arith)
]

-- What follows a guard that a returning computation passed.
after_guard :
    {E A : Type 0} (b : Bool) (e : E) (m : Result E A) (a : A)
    → (require b e >> m) ≡ ok a
    → m ≡ ok a
after_guard true e m a h = h
after_guard false e m a h = absurd (ground arith)

insert_requirements-commands :
    (booking : ℕ) (rs : List Requirement) (db after : Db)
    → insert_requirements booking rs db ≡ ok after
    → after.commands ≡ db.commands
unfolding insert_requirements
insert_requirements-commands booking [] db after h = ground arith
insert_requirements-commands booking (r ∷ rs) db after h =
    insert_requirements-commands booking rs _ after (after_guard _ _ _ after h)

-- A response is stored with the key.
abbrev Responded : Text → BookingSummary → Db → Db → Type 0
Responded key s before after =
    (c : CommandRow) × (after.commands ≡ before.commands ++ c ∷ [])
    × (c.idempotency_key ≡ key)
    × (c.response ≡ created s)

respond-Responded :
    (key : Text) (booking : ℕ) (db : Db) (s : BookingSummary) (after : Db)
    → respond key booking db ≡ ok (s, after)
    → Responded key s db after
unfolding respond
respond-Responded key booking db s after h = elim (Result-cases (read_booking_summary db booking)) [
  | inl (t, read) ↦ (
    record { idempotency_key = key; booking_id = booking; response = created t },
    ground arith,
    refl,
    ground arith,
  )
  | inr (e, fails) ↦ absurd (ground arith)
]

module _ (request : CreateRiderBookingRequest) (actor : Principal) (region : Text)
    (scheduled : Option Date) (key : Text) (command correlation : ℕ) where
  insert_rest-Responded :
      (pickup dropoff : ℕ) (db : Db) (s : BookingSummary) (after : Db)
      → insert_rest request actor region scheduled key command correlation pickup dropoff db
        ≡ ok (s, after)
      → Responded key s db after
  unfolding insert_rest tell_created store_booking
  insert_rest-Responded pickup dropoff db s after h =
      let start = store_booking pickup dropoff actor region scheduled db in
      elim (Result-cases (insert_requirements db.next_id request.requirements start)) [
        | inr (e, fails) ↦ absurd (ground arith)
        | inl (required, fine) ↦
            let kept =
              insert_requirements-commands db.next_id request.requirements start required fine in
            let (c, added, at_key, stored) =
              respond-Responded key db.next_id
                (tell_created db.next_id command correlation actor required) s after
                (ground arith) in
            (c, added ∙ ap (λ x. x ++ c ∷ []) kept, at_key, stored)
      ]

  insert_booking-Responded :
      (db : Db) (s : BookingSummary) (after : Db)
      → insert_booking request actor region scheduled key command correlation db ≡ ok (s, after)
      → Responded key s db after
  unfolding insert_booking
  insert_booking-Responded db s after h =
      elim (Result-cases (insert_location_snapshot request.pickup db)) [
        | inr (e, fails) ↦ absurd (ground arith)
        | inl (p, first) ↦ elim (Result-cases (insert_location_snapshot request.dropoff p.1)) [
          | inr (e, fails) ↦ absurd (ground arith)
          | inl (d, second) ↦
              let one = insert_location-commands request.pickup db p.0 p.1 first in
              let two = insert_location-commands request.dropoff p.1 d.0 d.1 second in
              let (c, added, at_key, stored) =
                insert_rest-Responded p.0 d.0 d.1 s after (ground arith) in
              (c, added ∙ ap (λ x. x ++ c ∷ []) (two ∙ one), at_key, stored)
        ]
      ]

-- A database that has the response of a key gives it back and stays as it is.
again :
    (request : CreateRiderBookingRequest) (actor : Principal) (rider : ℕ) (region : Text)
    (scheduled : Option Date) (key : Text) (db : Db) (s : BookingSummary)
    → find_created key db.commands ≡ some s
    → create_statements request actor rider region scheduled key db ≡ ok (s, db)
unfolding create_statements
again request actor rider region scheduled key db s found = rw found refl

create_statements-found :
    (request : CreateRiderBookingRequest) (actor : Principal) (rider : ℕ) (region : Text)
    (scheduled : Option Date) (key : Text) (db : Db) (s : BookingSummary) (after : Db)
    → create_statements request actor rider region scheduled key db ≡ ok (s, after)
    → find_created key after.commands ≡ some s
unfolding create_statements
create_statements-found request actor rider region scheduled key db s after h =
    elim (Option-cases (find_created key db.commands)) [
      | inr (t, found) ↦ ground arith
      | inl new ↦
          let start = record db { next_id = suc (suc db.next_id) } in
          let (c, added, at_key, stored) =
            insert_booking-Responded request actor region scheduled key db.next_id (suc db.next_id)
              start s after (after_guard _ _ _ (s, after) (rw new at h)) in
          rw added (find_created-append key db.commands c s new at_key stored)
    ]

-- A request to create a booking that returned returns the same summary when it is sent again with
-- its idempotency key, and the second time it changes no table.
pub create_again :
    (upper : Text → Text) (parse_date : Text → Date) (request : CreateRiderBookingRequest)
    (actor : Principal) (key : Text) (db : Db) (s : BookingSummary) (after : Db)
    → create_rider_booking upper parse_date request actor key db ≡ (ok s, after)
    → create_rider_booking upper parse_date request actor key after ≡ (ok s, after)
unfolding create_rider_booking transaction
create_again upper parse_date request actor key db s after h =
    elim (Result-cases (checked_request upper parse_date request actor)) [
      | inr (e, fails) ↦ absurd (ground arith)
      | inl ((rider, region, scheduled), checked) ↦
          let done =
            settle-ok (create_statements request actor rider region scheduled key db) db s after
              (rw checked at h) in
          let found =
            create_statements-found request actor rider region scheduled key db s after done in
          rw (checked, again request actor rider region scheduled key after s found) refl
    ]
