-- ===== src/Cron.antt =====
-- cron/: parsing of cron expressions. Fields and the specification are in the children.
pub mod Field
pub mod Spec
pub mod Every
pub mod Calendar
pub mod Next
