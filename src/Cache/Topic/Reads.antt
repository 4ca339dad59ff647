-- ===== src/Cache/Topic/Reads.antt =====
-- What a topic merger passes on to its map: get, for_each and for_each_prefix of
-- src/topic_merger.cpp. What a visitor is shown is a list.
use libpanaudia_core.Prelude.{List, Option, ℕ}
use libpanaudia_core.Cache.Map
use libpanaudia_core.Cache.Map.{CacheEntry, Entries}
use libpanaudia_core.Cache.Topic.{TopicMerger}

unfoldable pub get : TopicMerger → List ℕ → Option CacheEntry
unfolding Map.get
get m key = Map.get m.cache key

unfoldable pub for_each : TopicMerger → Entries
unfolding Map.for_each
for_each m = Map.for_each m.cache

unfoldable pub for_each_prefix : TopicMerger → List ℕ → Entries
unfolding Map.for_each_prefix
for_each_prefix m prefix = Map.for_each_prefix m.cache prefix
