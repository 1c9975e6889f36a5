-- ===== src/Narrow/Each/Typeof.antt =====
-- Narrowing by `typeof` and to literals.
use ts_rust.Types.Fixed
