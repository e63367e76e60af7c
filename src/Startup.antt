-- ===== src/Startup.antt =====
-- What a service opens when it starts and closes when it stops: libs/libs/deps, and the lifespans of
-- services/*/src/main.py.
pub mod Providers
pub mod PoolLaws
pub mod Race
pub mod Lifespan
pub mod LifespanLaws
