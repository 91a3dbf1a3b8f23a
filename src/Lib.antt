-- ===== src/Lib.antt =====
-- The ticketing backend: seats, orders, payments and tickets over PostgreSQL.
--
-- A buyer's checkout holds seats of a tier (`ticket_tiers.quantity_reserved`) for an order. The
-- gateway reports a payment by callback or when asked; `applySettlement` claims the payment, checks
-- a reported success with the gateway, and converts the hold into a sale (`commitOrder`) or gives the
-- seats back (`releaseOrder`). A worker then issues the tickets of a paid order, and the gate admits
-- each ticket once. Transitions are entered in the ledger.
--
-- Files, and the code that they model:
--   Schema          src/db/schema.ts: the enumerations, the rows, and the tables as lists of rows
--   Store           src/lib/errors.ts and `withTransaction` of src/db/client.ts: `Tx` is the body of a
--                   transaction, which reads and writes the tables or throws; `Exec` is a service
--                   function, which runs transactions and calls Redis one after the other
--   Ledger          src/services/ledger.service.ts: Record (`recordTransition`,
--                   `recordStandaloneTransition`), Chain (`verifySingleChain`, `verifyChain`); Linked has
--                   the proofs
--   Inventory       src/services/inventory.service.ts: Seats (`availableSeats`, `isHoldingInventory`),
--                   Locking (`sortForLocking`), Reserve (`reserveTier`, `explainReservationFailure`),
--                   Release (`releaseOrder`), Commit (`commitOrder`); Counters has the invariant of the
--                   tiers' counters and its proofs
--   Payments        src/services/payments.service.ts: Webhook (`recordWebhookDelivery`, `markWebhook`),
--                   Settle (`settleSuccess`, `settleFailure`), Apply (`confirmSuccess`,
--                   `applySettlement`); Consistency, Safety and Claim have the proofs
--   Tickets         src/services/tickets.service.ts: Issue (`issueTicketsForOrder`,
--                   `getTicketsForOrder`), CheckIn (`checkInTicket`), Void (`voidTicket`); Missing,
--                   Issuing, Admission, Steps, Once and Gate have the proofs
--   Codes           src/lib/codes.ts: Generate (`generateTicketCode`), Qr (`buildQrPayload`,
--                   `parseQrPayload`); Roundtrip and Issued have the proofs
--   Phone, Money    src/lib/phone.ts, and the M-Pesa amounts of src/lib/money.ts
--   Prelude         tables as lists, Boolean tests, and the lemmas that the parts share
--   Checkout        src/services/checkout.service.ts: Basket (the checks at the start of
--                   `createCheckout`, `assertHoldCapacity`), Hold (its transaction that holds seats),
--                   Replay (its input and result, idempotency keys), Payment (its transaction after
--                   the charge), Create (`createCheckout`, `cancelOrder`), Preview
--                   (`previewCheckout`, `quoteBasket`); Reserving, Created, Consistency, Keeping,
--                   Starting, GivenBack, Cancelled and Quoted have the proofs
--   Orders          src/services/orders.service.ts: View; Redaction has the proofs
--   Tenancy         src/services/tenancy.service.ts: Scope; Isolation has the proof
--   Purge           src/services/purge.service.ts: Delete (its transaction), Abandoned; Kept, Without
--                   and Consistency have the proofs
--   Workers         src/queue/workers: Expiry, Reconcile, Issuance; Keeping, Sweeping, Queued
--                   (the reconciler's jobs in the queue) and Chasing have the proofs
--   Events          src/services/events.service.ts: Tiers (`toPublicTier`), Listing, Archive, Sorting
--                   (ORDER BY); Prices and the ends of Tiers and Archive have the proofs
--   Gateway         src/gateways/mpesa: Client (the token and the STK push of daraja.ts), Mpesa
--                   (gateway.ts); Once, Renewed and Charged have the proofs
--   System          the transactions of checkout, release, commitment and payment in any order: Steps
--                   is the step relation, Backed, Links and Reachable have the proofs
--   Tests           a concrete shop, and the theorems at it
--
-- Conventions. A table is the list of its rows; SELECT, UPDATE and INSERT are `select`,
-- `update_where` and `insert`, and a CHECK constraint, a unique key or a column's range that a write
-- violates makes the statement fail. Transactions are atomic and run one after the other: the row
-- locks that the code takes are not modelled beyond that, and `applySettlement` is a sequence of such
-- transactions. UUIDs and instants are natural numbers; the clock is an argument. Counters are
-- natural numbers with the bounds of a 32-bit column as a test, as amounts are with those of a 64-bit
-- one (sums of cents are exact, as JavaScript's are up to 2 ^ 53); `GREATEST(a - b, 0)` is their
-- subtraction. The loops go over lists of rows, except for the walk along a chain of the ledger,
-- whose fuel is the number of its entries, each of which an accepted chain walks once, and the chase
-- of a payment, whose fuel is the number of jobs, of which there are at most six from attempt 0 on.
--
-- Outside of the model: the gateway's answer (in Gateway, what Daraja and Redis answer, JSON and
-- JavaScript's conversions), PostgreSQL's reading of a text as a UUID, new row ids, random bytes, the
-- HMAC, SHA-256 and the preimage of an entry, the printing of an instant, and what other requests
-- commit while the gateway is asked are arguments. Logging is left out, as are creation and update
-- times, raw payloads, and the messages of errors. `toUpperCase` is written out for ASCII letters. Two
-- statements outside of a transaction run one after the other with nothing in between, and a cached
-- answer is computed anew. The trigger that links the ledger's entries, BullMQ's delays and retries,
-- the cache, users and subscribers, the other requests of the M-Pesa client, routes and plugins, and
-- the web front end are not modelled.
mod Prelude
pub mod Codes
pub mod Phone
pub mod Money
pub mod Schema
pub mod Store
pub mod Ledger
pub mod Inventory
pub mod Payments
pub mod Tickets
pub mod Checkout
pub mod Orders
pub mod Tenancy
pub mod Purge
pub mod Workers
pub mod Events
pub mod Gateway
pub mod System
mod Tests
