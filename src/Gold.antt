-- ===== src/Gold.antt =====
-- The life of a Gold build in the catalog: publication (application/gold_publication.py) and
-- retention (application/gold_retention.py), over the ports that the publisher and the retention
-- service are given.
pub mod Sweeper
pub mod Ports
pub mod Effects
pub mod Calm
pub mod Publication
pub mod Retention
mod Samples
