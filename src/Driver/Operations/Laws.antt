-- ===== src/Driver/Operations/Laws.antt =====
-- The operating eligibility of a driver (driver-operations.ts).
use dazat_mobility.Base.{
  Bool, true, false, ◌&&◌, ◌||◌, not, List, [], ◌∷◌, ◌≡◌, ◌≢◌, ◌↔◌, ◌⊎◌, refl, ◌≤◌, arith,
  collect-empty_iff, includes, is_empty, keep, length, ltb, if◌then◌else◌, collect,
}
use dazat_mobility.Base.Texts.{Text, units, trim, contains_text}
use dazat_mobility.Driver.Operations.{
  DriverRestrictionScope, DriverRestrictionScope-discrete, DriverOperatingEligibilityInput,
  evaluate_driver_operating_eligibility, operating_rows, current_services, service_open,
  open_services, restricted_by, all_services, new_journeys, school_only, wav_only, specific_vehicle,
  not_eligible, eligible, partially_eligible,
}
use dazat_mobility.Driver.Operations.Current.{current_iff}
use dazat_mobility.Driver.Operations.Kept.{IsOneOf, keep_iff}

-- A filtered list is not longer, and it is the list itself if it is as long.
length-keep {ℓ} :
    {A : Type ℓ} (p : A → Bool) (xs : List A)
    → (length (keep p xs) ≤ length xs)
      × (ltb (length (keep p xs)) (length xs) ≡ false → keep p xs ≡ xs)
length-keep p [] = (omega arith, λ _. refl)
length-keep p (x ∷ xs) = let ih = length-keep p xs in ground arith

-- The decision over any test for blockers and any test of a service.
decision :
    (clear : Bool) (p : Text → Bool) (current : List Text)
    → let scoped = ltb (length (keep p current)) (length current) in
      let status =
        if not clear then not_eligible else if scoped then partially_eligible else eligible in
      let services = if not clear then [] else keep p current in
      ((status ≢ not_eligible) ↔ (clear ≡ true))
      × (status ≢ not_eligible → services ≡ keep p current)
      × (status ≡ eligible → services ≡ current)
      × (status ≡ not_eligible → services ≡ [])
decision clear p current = let kept = length-keep p current in ground arith

-- A service that no restriction closes.
pub record IsOpen (scopes : List DriverRestrictionScope) (code : Text) : Type 0 where
  pub not_school :
      (includes DriverRestrictionScope-discrete scopes school_only ≡ false)
      ⊎ (contains_text (units "SCHOOL") code ≡ false)
  pub not_wav :
      (includes DriverRestrictionScope-discrete scopes wav_only ≡ false)
      ⊎ (contains_text (units "WAV") code ≡ false)

service_open-IsOpen :
    (scopes : List DriverRestrictionScope) (code : Text)
    → (service_open scopes code ≡ true) ↔ IsOpen scopes code
unfolding service_open
service_open-IsOpen scopes code = ground arith

one_if_not_empty : (texts : List Text) → is_empty texts ≡ false → (t : Text) × IsOneOf t texts
one_if_not_empty [] h = absurd (ground arith)
one_if_not_empty (x ∷ texts) h = (x, ([], texts, refl))

not_empty_if_one : (texts : List Text) (t : Text) → IsOneOf t texts → is_empty texts ≡ false
not_empty_if_one [] t ([], rest, is) = absurd (ground arith)
not_empty_if_one [] t (x ∷ first, rest, is) = absurd (ground arith)
not_empty_if_one (x ∷ texts) t one = refl

module _ (upper : Text → Text) (i : DriverOperatingEligibilityInput) where
  abbrev pub current : List Text
  current = current_services upper i.current_permission_service_codes

  -- A code is that of a permission, trimmed and in capitals, and not empty.
  abbrev pub IsCurrent : Text → Type 0
  IsCurrent code =
      (raw : Text) × IsOneOf raw i.current_permission_service_codes
      × (upper (trim raw) ≡ code)
      × (is_empty code ≡ false)

  -- What a driver must have to operate: an active account, an approved application, current
  -- compliance, an authorised and eligible vehicle, no restriction of all services, of new journeys
  -- or of the vehicle, and a service with a current permission that no restriction closes.
  pub record MayOperate : Type 0 where
    pub account : i.account_active ≡ true
    pub approved : i.driver_approved ≡ true
    pub compliant : i.compliance_current ≡ true
    pub vehicle : i.selected_vehicle_present ≡ true
    pub authorised : i.selected_vehicle_authorised ≡ true
    pub vehicle_eligible : i.selected_vehicle_eligible ≡ true
    pub unrestricted :
        includes DriverRestrictionScope-discrete i.active_restriction_scopes all_services ≡ false
    pub new_allowed :
        includes DriverRestrictionScope-discrete i.active_restriction_scopes new_journeys ≡ false
    pub vehicle_unrestricted :
        includes DriverRestrictionScope-discrete i.active_restriction_scopes specific_vehicle
        ≡ false
    pub has_service : (code : Text) × IsCurrent code × IsOpen i.active_restriction_scopes code

  open_services_iff :
      (code : Text)
      → IsOneOf code (open_services upper i)
        ↔ (IsCurrent code × IsOpen i.active_restriction_scopes code)
  open_services_iff code =
      let (to, from) = keep_iff (service_open i.active_restriction_scopes) current code in
      let (opens, passes) = service_open-IsOpen i.active_restriction_scopes code in
      let (named, one_of) = current_iff upper i.current_permission_service_codes code in
      (
        λ one. (named (to one).0, opens (to one).1),
        λ (is_current, is_open). from (one_of is_current, passes is_open),
      )

  abbrev Clear : Type 0
  Clear =
      let scopes = i.active_restriction_scopes in
      (not i.account_active ≡ false)
      × (not i.driver_approved ≡ false)
      × (not i.compliance_current ≡ false)
      × (not i.selected_vehicle_present ≡ false)
      × (i.selected_vehicle_present && not i.selected_vehicle_authorised ≡ false)
      × (i.selected_vehicle_present && not i.selected_vehicle_eligible ≡ false)
      × (restricted_by all_services scopes || restricted_by new_journeys scopes ≡ false)
      × (restricted_by specific_vehicle scopes ≡ false)
      × (is_empty current ≡ false)
      × (not (is_empty current) && is_empty (open_services upper i) ≡ false)

  rows_clear : Clear → MayOperate
  rows_clear (a, b, c, d, e, f, g, h, k, l) =
      let (code, one) = one_if_not_empty (open_services upper i) (ground arith) in
      let is_current = (open_services_iff code).0 one in
      record {
        account = ground arith;
        approved = ground arith;
        compliant = ground arith;
        vehicle = ground arith;
        authorised = ground arith;
        vehicle_eligible = ground arith;
        unrestricted = ground arith;
        new_allowed = ground arith;
        vehicle_unrestricted = h;
        has_service = (code, is_current.0, is_current.1);
      }

  clear_rows : MayOperate → Clear
  clear_rows may =
      let (code, one, is_open) = may.has_service in
      let named = (current_iff upper i.current_permission_service_codes code).1 one in
      let some_current = not_empty_if_one current code named in
      let some_open =
        not_empty_if_one (open_services upper i) code ((open_services_iff code).1 (one, is_open)) in
      (
        rw may.account refl,
        rw may.approved refl,
        rw may.compliant refl,
        rw may.vehicle refl,
        rw (may.vehicle, may.authorised) refl,
        rw (may.vehicle, may.vehicle_eligible) refl,
        rw (may.unrestricted, may.new_allowed) refl,
        may.vehicle_unrestricted,
        some_current,
        rw (some_current, some_open) refl,
      )

  conditions : (is_empty (collect (operating_rows upper i)) ≡ true) ↔ MayOperate
  unfolding operating_rows
  conditions =
      let (to, from) = collect-empty_iff (operating_rows upper i) in
      (
        λ h.
            let (a, (b, (c, (d, (e, (f, (g, (k, (l, (m, _)))))))))) = to h in
            rows_clear (a, b, c, d, e, f, g, k, l, m),
        λ may.
            let (a, b, c, d, e, f, g, k, l, m) = clear_rows may in
            from (a, (b, (c, (d, (e, (f, (g, (k, (l, (m, tt)))))))))),
      )

  -- The status of a driver is not NOT_ELIGIBLE exactly when all of MayOperate holds. The driver then
  -- gets exactly the codes of permissions, trimmed, in capitals and not empty, that neither a
  -- SCHOOL_ONLY nor a WAV_ONLY restriction closes. If the status is ELIGIBLE, these are the services
  -- with a current permission as they are listed; a driver with the status NOT_ELIGIBLE gets none.
  pub operating_sound :
      let d = evaluate_driver_operating_eligibility upper i in
      ((d.status ≢ not_eligible) ↔ MayOperate)
      × (d.status ≢ not_eligible
          → (code : Text)
          → IsOneOf code d.eligible_service_codes
            ↔ (IsCurrent code × IsOpen i.active_restriction_scopes code))
      × (d.status ≡ eligible → d.eligible_service_codes ≡ current)
      × (d.status ≡ not_eligible → d.eligible_service_codes ≡ [])
  unfolding evaluate_driver_operating_eligibility
  operating_sound =
      let parts =
        decision (is_empty (collect (operating_rows upper i)))
          (service_open i.active_restriction_scopes) current in
      (
        (λ h. conditions.0 (parts.0.0 h), λ may. parts.0.1 (conditions.1 may)),
        λ h code. rw (parts.1 h) (open_services_iff code),
        parts.2,
        parts.3,
      )
