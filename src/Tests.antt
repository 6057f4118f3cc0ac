-- ===== src/Tests.antt =====
-- Concrete runs of the models: one database and one form, and the theorems at work on them.
mod World
mod Remotes
mod Learn
mod Automation
mod Rules
mod Page
mod Steps
mod Setup
mod Hub
mod Modals
mod Screens
