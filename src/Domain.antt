-- ===== src/Domain.antt =====
-- internal/domain: the entities and the rules of their lives. Methods on a pointer receiver return
-- the new value, and `error` is a `Result`; `Clone` is the identity, since values are immutable.
pub mod Device
pub mod Incident
pub mod Action
pub mod Stream
pub mod Evidence
pub mod Telemetry
pub mod Policy
pub mod Anomaly
