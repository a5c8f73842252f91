-- ===== src/Api.antt =====
-- What the routes of apps/api share: the answer of a handler, the tables it works on, and the
-- checks of apps/api/deps.py and of apps/api/routes/sources.py that come before its own work.
pub mod Response
pub mod Store
pub mod Access
