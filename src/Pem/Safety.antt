-- ===== src/Pem/Safety.antt =====
-- The slices that Decode of pem/pem.go takes are in range.
