-- ===== src/Interactions.antt =====
-- apps/interactions: the log of a user's actions, and the weight that each action is given.
pub mod Decimal
pub mod Record
pub mod Rules
