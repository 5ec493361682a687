-- ===== src/Lib.antt =====
-- Verification library of DAZAT Mobility, a platform for bookings, Drivers, Journeys and their money.
--
-- The program. packages/domain/src holds the decisions and the state machines of the platform as pure
-- functions: each takes a record of evidence and returns a decision with the reasons against it, or
-- tells whether a transition of a status is allowed. The services under services/api/src/modules read
-- the evidence from the database, ask these functions and store what follows in one transaction. The
-- apps show what the services answer.
--
-- The files and the code they model, with paths under packages/domain/src unless others are given:
--   Base             numbers, dates, texts and results of JavaScript, and the lemmas all parts share
--   Booking/Status   booking-status.ts: the statuses of a booking and the canonical transitions;
--                    Booking/Chains is on the chains of them
--                    Booking/Store, Transition, Create, Quotes and Confirm are the transactions of
--                    services/api/src/modules/booking/booking-service.ts over a record of tables
--   Dispatch         dispatch.ts: the availability of a Driver and the offers (Availability), and the
--                    eligibility for dispatch (Eligibility)
--                    Dispatch/Market, Evidence, Registry, Lookup, Steps, Shifts, Offers, Accept,
--                    Assigning, Claims, Intent, Candidates and Start are the transactions of
--                    services/api/src/modules/dispatch/dispatch-service.ts;
--                    Dispatch/Exclusive is on each of them and Dispatch/Races on sequences of them
--   Telephony        telephony-voice.ts
--   History          what the Booking and the Dispatch service write to the log of transitions
--   Pricing          pricing.ts and money.ts
--   Journey          journey.ts (Status, Location, RideCheck) and live-journey.ts (Live)
--   CoreJourney      core-journey-vertical-slice.ts, which runs a booking through Pricing, Dispatch,
--                    Journey and Booking, one function for each stage of the source's function
--   Finance          finance.ts: payments (Payment), the ledger (Ledger) and the check for raw card
--                    secrets (Secrets)
--   Identity         identity.ts and authentication.ts: accounts, recovery and sessions (Account), and
--                    contacts and codes (Contact)
--   Driver           driver-daily-operations.ts (Fatigue, Daily), driver-operations.ts (Operations) and
--                    driver-fair-treatment.ts (FairTreatment)
--   Fleet            fleet-operations.ts
--   Maintenance      maintenance-reliability.ts
--   Communications   communications.ts
--   Examples         the theorems at concrete inputs
--
-- A function has the source's name in snake_case, a type has the source's name, and the text of an
-- enumeration is the constructor of that name in lower case. A child module Laws or Traces is on what
-- holds of its parent's definitions.
--
-- Conventions. A number is NaN, an infinity or an exact fraction; comparisons are those of IEEE 754,
-- and where the source rounds (distances, speeds) its arithmetic is a parameter, MathOps. A date is
-- invalid or a count of milliseconds from 1970 on. A text is the list of its UTF-16 units; toUpperCase
-- and toLowerCase are parameters, since the tables of Unicode are not in the repository. A row of
-- statements that push a reason is a list of tests with their reasons (collect). A function that
-- throws returns a Result whose error names the throw. All recursion is structural, so no fuel is
-- used.
--
-- The booking service. Statements map the tables to a result with the tables after them, or to an
-- error; a transaction keeps the tables where they throw, and a service call is a sequence of
-- transactions. Identifiers come from a counter in the tables, one for the database and randomUUID. The
-- requests run one after the other; ranges of columns are not checked, UNIQUE of the fare agreements is.
-- The pricing port and the Date constructor on a text are parameters.
--
-- The Dispatch service. A Market is the tables of bookings with those of offers, assignments and
-- shifts. A transaction ends by COMMIT, after which the code returns or throws, or by ROLLBACK with
-- what was thrown (Ended). The rows of Drivers and vehicles, which other services write, the
-- configuration, the time, toUpperCase and the parsing of JSON are a parameter (World), the order by
-- distance of PostGIS another one (Geography). The constraints that the statements can meet are
-- tested: the two partial unique indexes of driver_assignment, the uniqueness of an attribution and of
-- an attempt's number, and the CHECK of availability_state. The versions of shift events and of
-- availability transitions are always new and are not tested. One request runs at a time; the source
-- locks the attempt and the offer before it reads them, and its UPDATE of the booking, which it reads
-- without a lock, asks for the status and the version that were read.
--
-- Not modelled: the other services' transactions, the HTTP routes, the workers, the apps, the
-- types of packages/contracts, and of the domain the institution and organisation files and
-- the two further files on communications. Constants that no function reads are left out.
pub mod Base
pub mod Booking
pub mod Dispatch
pub mod Pricing
pub mod Journey
pub mod CoreJourney
pub mod Finance
pub mod Identity
pub mod Driver
pub mod Fleet
pub mod Maintenance
pub mod Communications
pub mod Telephony
pub mod History
pub mod Examples
