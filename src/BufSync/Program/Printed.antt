-- ===== src/BufSync/Program/Printed.antt =====
-- src/buf-sync.cxx: what client_reader prints, in all interleavings of the program.
