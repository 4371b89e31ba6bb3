-- ===== src/External.antt =====
-- The code that the server calls and does not hold (dashmap, libwebrtc, tokio, prost, dogstatsd,
-- nanoid, num_cpus, the clock): its types, its operations and the few laws that are relied on.
pub mod Types
pub mod DashMap
pub mod Platform
pub mod Reliable
pub mod Assoc
pub mod Maps
