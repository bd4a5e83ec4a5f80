-- ===== src/Track/Parsing.antt =====
-- track-control/include/parsing.h and track-control/src/parsing.c: the commands of the console. The
-- input is a deque of characters. An int is its bit pattern, negative from 2^31 on. A loop that takes
-- one character a round goes over the size of the input.
pub mod Numbers
pub mod Path
pub mod Command
pub mod Digits
pub mod Value
pub mod Laws
mod Tests
