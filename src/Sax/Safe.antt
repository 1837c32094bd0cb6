-- ===== src/Sax/Safe.antt =====
-- `sax_core` stays in bounds, comes to an end and keeps the invariant: rules for the token
-- stack and the hooks (`Stack`), one lemma for each context (`Tags`, `Values`, `Text`), a round
-- (`Rounds`), and the loop (`Loop`).
pub mod Ensures
pub mod Stack
pub mod Post
pub mod Hook
pub mod Tags
pub mod Values
pub mod Text
pub mod Rounds
pub mod Loop
pub mod Session
