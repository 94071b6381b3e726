-- ===== src/Tests.antt =====
-- Concrete runs of the models.
mod Instances
mod Data
mod Donors
mod Database
mod Deployment
mod Images
mod Service
mod Staging
mod Http
mod Packages
mod Sessions
mod Handlers
mod Lists
mod Queue
