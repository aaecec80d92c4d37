-- ===== src/Gameplay.antt =====
-- internal/gameplay: one player's bubble board and the rules of the game.
pub mod Grid
pub mod Search
pub mod Matches
pub mod Floating
pub mod Float
pub mod State
pub mod Place
pub mod Shots
pub mod Clone
pub mod Layer
mod Tests
