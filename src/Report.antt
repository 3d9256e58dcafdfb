-- ===== src/Report.antt =====
-- The price reports: `Build` is the building of a report's groups (domain/report/report.service.ts,
-- utils/offer-price.util.ts), `Page` the index of a report and the choice of a page
-- (utils/report-page.util.ts), `Key` the key that a report is cached under
-- (utils/report-cache-key.util.ts) and `Request` what is asked for.
pub mod Page
pub mod Request
pub mod Key
pub mod Offers
pub mod Query
pub mod Build
mod Tests
