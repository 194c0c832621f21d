-- ===== src/Examples.antt =====
-- reference/examples: environments and tools that show the author interface.
pub mod Counter
