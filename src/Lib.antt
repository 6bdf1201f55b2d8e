-- ===== src/Lib.antt =====
-- A model of lurus-identity: accounts' money, subscriptions and entitlements.
--
-- The service is a Go program over PostgreSQL, Redis and NATS. HTTP and gRPC handlers
-- (internal/adapter/handler, internal/adapter/grpc) call the services of internal/app, which call the
-- repositories of internal/adapter/repo; scheduled jobs (internal/app/cron) call the same services.
-- Here a repository method is a statement or a transaction over the tables of `Store.Tables`, and a
-- service method is the sequence of those calls that the Go code makes, with its early returns.
--
-- How the parts correspond to the code:
--   Base, Table      tests on numbers, signed amounts, and SQL queries over a list of rows
--   Entity           internal/domain/entity: the rows
--   Store            the database, the cache and the queues, failing statements and transactions
--   Outbox           writing events, as the services and jobs do it
--   Text, Username   texts as lists of codes; user names and Lurus ids of internal/domain/entity/account.go
--   Account          internal/adapter/repo/account.go, internal/app/account_service.go and
--                    internal/app/registration_service.go
--   Session          internal/pkg/auth/session.go
--   Auth             internal/pkg/auth/validator.go, jwks.go and middleware.go, and the account lookup
--                    of cmd/server/main.go
--   AdminConfig      internal/app/admin_config_service.go, internal/adapter/repo/admin_settings.go and
--                    internal/adapter/handler/admin_config_handler.go
--   Catalog          internal/adapter/repo/product.go and internal/adapter/handler/product.go
--   Internal         internal/adapter/handler/internal_api.go and internal/adapter/grpc/server.go
--   Overview         internal/app/overview_service.go and internal/pkg/cache/overview.go
--   Paging           the pages of transactions and refunds
--   RateLimit        internal/pkg/ratelimit/limiter.go
--   Idempotency      internal/pkg/idempotency/webhook.go
--   Payment          the notifications that internal/adapter/payment accepts
--   Handler          internal/adapter/handler/webhook.go, and what wallet.go and subscription.go beside it
--                    decide
--   Invoice          internal/app/invoice_service.go and internal/adapter/repo/invoice.go
--   Wallet           internal/app/wallet_service.go and internal/adapter/repo/wallet.go
--   Refund           internal/app/refund_service.go and internal/adapter/repo/refund.go
--   Vip              internal/app/vip_service.go and internal/adapter/repo/vip.go
--   Calendar         the dates of internal/app/subscription_service.go
--   Entitlement      internal/app/entitlement_service.go and internal/pkg/cache/entitlement.go
--   Subscription     internal/app/subscription_service.go, internal/adapter/repo/subscription.go and
--                    the unique index of migrations/001_identity_schema.sql
--   Cron             internal/app/cron: renewal.go, expiry.go, outbox_relay.go and notification.go
--   Checkin          internal/app/checkin_service.go and internal/adapter/repo/checkin_repo.go
--   Referral         internal/app/referral_service.go
--   Organization     internal/app/organization_service.go and internal/adapter/repo/organization.go
--
-- Conventions. A table is the list of its rows in the order of the primary key. Each SQL statement
-- takes one entry of the schedule `faults`, which says whether it fails; a statement that fails
-- changes nothing, and a transaction that ends in an error restores the tables. Row locks and single
-- UPDATE statements make transactions sequential, so a transaction runs alone; what happens between
-- the statements of different transactions is a sequence of calls. Money is an integer in units of
-- 0.0001 CNY, the scale of balances and ledger entries; the columns of two decimals (the amounts of orders,
-- plans, invoices and refunds, and a wallet's lifetime totals) do not round here, and the rounding of float64
-- amounts is not modelled. Instants are nanoseconds; an invoice's columns keep whole microseconds, those of
-- other tables the whole instant. The scores of the rate limit are float64 values of instants from 2006 to
-- 2043. Each reading of the clock and each generated number is an argument. One sequence
-- gives the ids of all tables. What the Go library does with texts and time zones is a parameter.
-- Loops over rows are recursions on the list. The fuel of the loop over months in
-- `Calendar.carry` is the number of months, of which one fewer is left each round; that of the digits
-- in `Text.emit` is more than the number, which each round divides by ten; that of the batches in
-- `Referral.Bulk.create_in_batches` is the number of rows, of which each round takes at least one. The
-- loop that draws codes recurs on the random bytes that it reads, and says so when they run out.
--
-- Not modelled: HTTP and gRPC decoding, the logins at Zitadel and WeChat, the requests to the payment
-- providers, mail and SMS, metrics, tracing and logging, configuration, and the descriptions of ledger entries.
pub mod Account
pub mod AdminConfig
pub mod Auth
pub mod Base
pub mod Calendar
pub mod Catalog
pub mod Checkin
pub mod Cron
pub mod Entitlement
pub mod Entity
pub mod Handler
pub mod Idempotency
pub mod Internal
pub mod Invoice
pub mod Organization
pub mod Outbox
pub mod Overview
pub mod Paging
pub mod Payment
pub mod RateLimit
pub mod Referral
pub mod Refund
pub mod Session
pub mod Store
pub mod Subscription
pub mod Table
pub mod Text
pub mod Username
pub mod Vip
pub mod Wallet
