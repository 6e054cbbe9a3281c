-- ===== src/TccCc/Parser/Laws/Depth.antt =====
-- The parsers with the fuel that an expression asks for.
