-- ===== src/Types.antt =====
-- The structured types of WitcherScript and their annotations (src/types/).
pub mod Ty
pub mod Trim
pub mod Parse
pub mod Fuel
pub mod Walks
pub mod Tight
pub mod RoundTrip
