-- ===== src/Examples.antt =====
-- A toy image in memory, and the theorems at inputs that exercise the code. The disk of the toy is
-- its whole world: reads and writes succeed, memory is never short, and the clock stands still.
mod Disk
mod Code
mod Allocation
mod Release
mod Maps
mod Reading
mod Walk
mod Records
mod Checker
mod Inodes
mod Virtual
mod Labels
mod Paths
mod Tree
mod Operations
mod Growth
mod Numbers
