-- ===== src/Envelope.antt =====
-- The two envelopes of a voice.
pub mod Linear
pub mod Adsr
