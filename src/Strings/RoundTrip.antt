-- ===== src/Strings/RoundTrip.antt =====
-- What the conversions write, and that Latin-1 text survives both.
