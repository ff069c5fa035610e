-- ===== src/Lib.antt =====
-- Cashcove, a self-hosted application for a household's money (the Python code under backend/app).
--
-- The parts modelled, with the files that model them:
--   Alerts/Channels  backend/app/alerts/service.py: the settings of Discord and email
--   Alerts/Delivery  the same file: deliveries and their retries
--   Alerts/Worker    backend/app/alerts/worker.py: the checks that raise alerts
--   Auth/Throttle    backend/app/auth/throttle.py: counters of failed attempts and their locks
--   Auth/Sessions    backend/app/auth/sessions.py: server-side sessions behind a cookie
--   Auth/Challenges  backend/app/auth/challenges.py: single-use state between the steps of a sign-in
--   Auth/Totp        backend/app/auth/totp.py, tokens.py and the part of service.py about codes
--   Auth/Setup       backend/app/auth/setup.py: the code of the first administrator
--   Calendar         what the program uses of Python's `datetime` and `calendar`
--   Finance/Periods  backend/app/finance/periods.py: the periods of a budget
--   Finance/Store    the tables of backend/app/models that the next ones share
--   Finance/Subscriptions  backend/app/finance/subscriptions.py, up to `advance_due_date`
--   Finance/Recurring      the same file from `backfill_subscription` on
--   Finance/Text     backend/app/finance/text.py: text as it is compared, in Python and in the database
--   Finance/Automations    backend/app/finance/automations.py: what an automation looks for, as a
--                    query and as a rule; RuleBook sorts what arrives, Existing what is there already
--   Finance/Budget   backend/app/finance/budget.py: what counts toward a budget; Linking changes that,
--                    Flows adds it up, Changing has the budget itself
--   Finance/Ledger   backend/app/finance/accounts.py and the parts of finance/transactions.py and
--                    api/transactions.py that add, delete and categorize transactions
--   Imports/Rows     backend/app/imports/files.py: the rows of a statement file
--   Imports/Matching backend/app/imports/matching.py: which rows an account has already; Names has
--                    the payees and categories, Review each row's fate
--   Imports/Filing   backend/app/imports/service.py: importing rows, and undoing an import
--   Imports/Preview  the same file: what a preview shows of each row
--   Plaid/Connection backend/app/plaid/errors.py and schedule.py: a bank connection between syncs
--   Plaid/Sync       the claim and the end of a sync in backend/app/plaid/sync.py
--   Plaid/Changes    reading an account's changes there, page by page
-- Base has what the files share: Boolean tests, lists as tables, integers, division, texts.
--
-- How the code is modelled. A table is a list of rows, or a function where every query is by key. A
-- function of the source that changes rows returns the tables as it leaves them; a definition has
-- the name of the function it models, and a helper is named in the comment above it. `end` and
-- `find` of the source are `end_session` and `find_challenge`. Ids, hashes and tokens are numbers; a
-- moment is a number of microseconds, a date a year, a month and a day, an amount a number of cents.
-- Dates are those of the years 1 to 9999, and what raises outside them returns `none` or `raises`.
--
-- Parameters of the model, since their code is not part of this repository: SHA-256 (`hash_token`,
-- `sha256`), pyotp (`otp`), encryption and decryption (`encrypt`, `decrypt`), Python's tables of
-- characters (`isspace`, `isdigit`, `isalnum`, `lower`), how Python and the database fold a payee
-- (`normalized` and `matched`), what Plaid answers and what comes of a message sent to Discord or by
-- email (`answer`), and cutting a text (`cut`). What automations use of texts, `LIKE` and regular
-- expressions included, is a record of operations (`Engine`) with a record of their documented laws
-- (`IsDocumented`), which the tests fill. Python and the database have tables of whitespace and
-- letter case of their own there; where a theorem needs that they read a text alike, that is a
-- hypothesis on the text (Finance/Automations/Alike). What recovery codes need of `lower` and
-- `isalnum` for ASCII is `FoldsAscii`. Two parameters stand for code of the repository, of which the theorems need nothing:
-- `key` in Imports/Matching for `text_key` (Finance/Text), which folds letter case, and
-- `file_category` for the table of the names that banks have for categories. Imports/Filing
-- and Imports/Preview take what Imports/Matching says of the rows as an argument.
--
-- Bounds and fuel. The loops over due dates take fuel: one round more than the days from the first
-- day of the calendar to the limit, which is enough because each payment is due at least a day
-- after the one before. The bisection of `of_ordinal` takes 17 rounds for its 119,988 months.
-- The loop over Plaid's pages has a bound as a parameter, since only Plaid ends it.
-- `starts_back` takes the source's own bound of 60 periods.
--
-- How the parts meet. Sorting moves the due date of a subscription (Finance/Subscriptions); a budget
-- counts what an automation's query finds (Finance/Automations); a budget's periods are those of
-- Finance/Periods. An import sorts each new row by the automations and moves the balance of its
-- account (Finance/Ledger). The tables that they share are in Finance/Store.
--
-- Not modelled: transactions of the database and requests that run at the same time, except where a
-- single statement decides (the claims of challenges and of time steps); the HTTP layer and the
-- validation of its bodies; the requests to Plaid and what a sync does with the transactions; the
-- conversion of currencies and the lists that only show rows; the formats of statement
-- files and the summary of a preview; the assistant; the web frontend.
pub mod Base
pub mod Alerts
pub mod Auth
pub mod Calendar
pub mod Finance
pub mod Imports
pub mod Plaid
