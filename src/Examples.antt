-- ===== src/Examples.antt =====
-- The theorems at work on small inputs, and runs of the code.
mod Scenario
mod TestJson
mod Assignment
mod Joining
mod Sets
mod Operator
mod Networks
mod Loops
mod Installing
mod Manifests
mod Waiting
mod Running
mod Wiring
mod Replacing
mod Deploying
