-- ===== src/Relay/Escr/Sends.antt =====
-- The buffers of _escr_authenticate are large enough.
