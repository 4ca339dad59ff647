-- ===== src/Cache.antt =====
-- The state cache library: src/cache_wire.cpp, src/cache_map.cpp, src/topic_merger.cpp.
mod Tests
pub mod Wire
pub mod Map
pub mod Topic
