-- ===== src/Daemon/Enrollment.antt =====
-- noports_enrollment_signature.c: the key that a record advertises, and the check of a request's
-- signature by its sender's enrollment key.
pub mod Uri
pub mod Advert
pub mod Verify
