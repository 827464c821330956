-- ===== src/Conductor/Examples.antt =====
-- Runs on small inputs: a repository of one file, and a worker that lists the files it writes.
mod Worlds
mod Frontiers
mod Runs
mod Packages
mod Memories
mod Reads
