-- ===== src/Payments.antt =====
-- Top-ups, webapp/payments: limits and input rules, orders, the Click callback and the Paynet
-- provider endpoint.
pub mod Config
pub mod Orders
pub mod Credit
pub mod Books
pub mod Events
pub mod Shop
pub mod Paynet
pub mod Merchant
pub mod Direct
pub mod History
pub mod PaynetTests
mod HistoryTests
pub mod Tests
