-- ===== src/Lib.antt =====
-- A model of the shop's core: the stock ledger, buying, the till, the customers' accounts, the paperwork
-- of selling to businesses, who may do what, and what the platform bills to a shop. The repository is a
-- Django program; the files under apps/ that are modelled are its services, with the parts of the tables
-- in models.py that they read and write, and of the views the one through which every sale comes in.
--
-- Parts, in the order in which they stand on each other:
--
-- Prelude        Booleans, lists, signed integers over the native numbers and exceptions as values.
-- Money          `price`, `money` and `quantum` of apps/pos/services.py and the roundings of
--                apps/core/currency.py: half up, half up with a sign, half to even.
-- Inventory      apps/inventory/services.py over apps/inventory/models.py. State holds the cached
--                quantities and the ledger (`Stock`), Movement is `record_movement`, through which
--                every quantity changes, with the costs in Costs; Adjustment, Transfers, Counts,
--                Rebuild and Batches are the services built on it. The files named for laws and
--                Ledger, Transit hold what is proved of them. Services is any sequence of these
--                services beside what each promises of the quantities, and Refinement sets the two
--                side by side.
-- Catalogue      `price_for` of apps/catalog/models.py, with the tables that selling reads; Tiers is
--                about the rows of prices that a page fetches before.
-- Customers      the account of a customer, a signed ledger, in Account: apps/customers/models.py. Loyalty
--                is the points of apps/customers/services.py, over the sales of Till.
-- Till           apps/pos/services.py over apps/pos/models.py. Amounts is the money of a line,
--                Checkout is `complete_sale`, Void is `void_sale`, Refund and Returns are
--                `create_return`, Shifts is the cash drawer, and Baskets is `add_to_cart`. Tender
--                reads the payments that a device sends, Validation and Acceptance are the rest of
--                `check_sale`: apps/pos/validation.py. Offline is `_store_offline_sale` of
--                apps/sync/views.py, which checks an entry, fills a basket and completes the sale. The
--                state (`Till`) is the stock, the sales and the accounts together. What the cashier may
--                do is what Access answers.
-- Selling        apps/selling/services.py over apps/selling/models.py. Documents is the money of a
--                quotation or invoice, Discounts the limits on it, Quotations, Invoices, Deliveries
--                and Cancelling are the services. The state (`Office`) is the tables of documents
--                beside a `Till` and a `Drawer`.
--
-- Purchasing     apps/purchasing/services.py over apps/purchasing/models.py. Orders is the orders,
--                Receipts puts a delivery into stock through `record_movement`, Bills is what a supplier
--                is owed and `apply_advances`, Posting is `post_receipt` as a whole.
-- Access         State and Resolve are apps/core/permissions.py and the memberships of
--                apps/accounts/models.py, Guards is apps/accounts/guards.py.
-- Tenancy        Billing and Payments are the invoices of apps/tenancy/billing.py and what is paid on
--                them, Renewal is its `renew_due` and `extend_subscription` with the night of
--                apps/tenancy/tasks.py, for one shop: the loops over all shops run for each on its own
--                rows. Steps, Reversals, Ledger and the files named for laws are what is proved of them.
-- Numbering      `next_reference` of apps/purchasing/services.py and apps/selling/services.py,
--                `save_with_number` of apps/core/numbering.py, and in ByText the numbers of sales,
--                returns and bills.
-- Wording        apps/core/amounts.py, the words of an amount on an invoice, and Reading, which is how
--                they are read back.
--
-- A service that changes rows is a function from a state to a result with the new state. An exception
-- is the `err` of a result, and its transaction is rolled back, so that no state comes with it. A row
-- locked and read again is a look-up by key, and a save replaces the row with that key. Tables that
-- are ordered by time stand newest first. Events are kept in the order in which they are emitted;
-- their listeners are not run.
--
-- Units: an amount is a whole number of cents, a quantity of thousandths, a rate of VAT or a
-- discount of hundredths of a per cent, an exchange rate of millionths. A device may send finer
-- figures: those of an entry count parts of a thousandth and of a cent, of which the entry says how
-- many there are, and become whole ones where `price()` and the columns of the database round them.
-- A payment that it sends is in cents, as `decimal_or_none` reads it. Amounts are naturals where
-- the forms and `check_sale` refuse less than nothing, and signed where a sum can go below.
-- Products and quotients are exact until the program rounds them: the 28 digits to which Decimal
-- carries a quotient are not modelled. An instant of the platform is a number of microseconds of
-- local time, in a zone whose days are all equally long, such as the shops'.
--
-- Loops run over lists, so that the recursion is structural, but for `in_words` and the digits of a
-- number, which run on fuel: a count is less than its number and a tenth less than the whole, so the
-- number and one are enough. `apply_advances` takes an advance off its list in every turn that goes on.
--
-- Not modelled: users, times of writing, notes and reasons, which no modelled branch reads but for
-- the note of a delivery made by issuing, which is a flag; the shop (tenant) that every query is
-- held to. The views, which ask Access before they call a service, the templates, the rest of the
-- sync protocol with the drawer that a late sale goes into, baskets that are held under a code, the
-- writing of the catalogue, the rates of currencies, the reports and the pages of the platform are
-- outside the model, and so are the cache of permissions, the staff of the platform and signing up.
pub mod Prelude
pub mod Access
pub mod Catalogue
pub mod Money
pub mod Inventory
pub mod Selling
pub mod Customers
pub mod Numbering
pub mod Purchasing
pub mod Tenancy
pub mod Wording
pub mod Till
