-- ===== src/Admission.antt =====
-- src/admission: the global gate, the limiter of one backend and the holders of their slots.
pub mod Gate
pub mod Limiter
pub mod Holder
pub mod Tests
