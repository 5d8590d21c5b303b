-- ===== src/CharDev.antt =====
-- The character devices. `Som` has lkml/mmap/char-drv.c and `Epm` lkml/char-drv/epm.c; `Calls` has
-- what both ask of the kernel, and the other modules hold theorems.
mod Calls
mod Som
mod Epm
mod SomLaws
mod Reader
mod ReaderLaws
mod EpmLaws
mod Tests
