-- ===== src/Topology/Memory/LastLevel.antt =====
-- The size of the last cache level.
use numafac.Os.{Os}
