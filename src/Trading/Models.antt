-- ===== src/Trading/Models.antt =====
-- The records of src/models: orders, positions, accounts. A price is a number of small decimal
-- units, which validation keeps above zero; a balance is an integer. Codes, names and identifiers
-- are numbers, and a message is the constructor that stands for its text.
pub mod Orders
pub mod Positions
unfoldable pub use Orders.*
unfoldable pub use Positions.*
