-- ===== src/Vcard.antt =====
-- The vCard code of src/mcp.rs: escaping, folding, the building and the parsing of cards.
pub mod Escape
pub mod Fold
pub mod Lines
pub mod Contact
pub mod Parse
pub mod RoundTrip
pub mod Semicolons
pub mod Width
pub mod Examples
