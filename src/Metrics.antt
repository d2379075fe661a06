-- ===== src/Metrics.antt =====
-- Job metrics of swm-porter: c_src/porter/wm_porter_metrics.cpp and its header. Doubles are those of
-- an interface; times are integers that do not overflow.
pub mod Config
pub mod Window
pub mod Sample
pub mod Report
pub mod Cycle
