-- ===== src/Voice.antt =====
-- sfizz/Voice.h and sfizz/Voice.cpp: the members of a voice, its events, its start, and its blocks.
pub mod Parts
pub mod Events
pub mod Start
pub mod Lifecycle
pub mod Sustain
pub mod Loading
pub mod Filling
pub mod Rendering
