-- ===== src/Examples.antt =====
-- Concrete inputs at which the theorems of the other modules apply.
mod Settlements
mod Views
mod Calls
mod Configurations
mod Deployments
mod Closes
mod Jobs
mod Systems
mod Manual
mod Trees
mod Runs
mod Starts
mod Outages
