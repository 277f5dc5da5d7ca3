-- ===== src/Tests.antt =====
-- A small interpreter and C library to run the model on, and the examples.
mod Toy
mod Marshalled
mod Called
mod Described
mod Pointed
mod Nested
mod Objects
mod Held
mod Printed
mod Widened
