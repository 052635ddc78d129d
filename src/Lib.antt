-- ===== src/Lib.antt =====
-- RecoNIC: the user-space library of lib/, which drives an RDMA engine and compute kernels on an
-- FPGA network card through memory-mapped registers and a character device, and the programs of
-- examples/, which use it.
--
-- The program's parts, and the files that model them:
-- - Registers: the register map, lib/reconic_reg.h. One constant for each `#define`, under the
--   macro's name in lower case; a final `i` of a per-queue register is `_i`.
-- - Control: lib/control_api.c. `write32_data` and `read32_data` are the only accesses to the
--   registers; the commands of the compute kernel go through them.
-- - Reconic: lib/reconic.c. Addresses as the card sees them (Address), the page map (Paging), the
--   buffers cut from huge pages or from the card's memory (Buffer), the windows of the PCIe bridge
--   (Bdf), the device object (Create, with `allocate_hugepages_buffer` of lib/rdma_api.c), and the
--   search for a network interface (Interface).
-- - Memory: lib/memory_api.c, the transfers to and from the card's memory.
-- - Auxiliary: lib/auxiliary.c, the difference of two times.
-- - Rdma: lib/rdma_api.c. The device and its global registers (Device), protection domains (Pd),
--   queue pairs (Qp), work queue elements (Wqe), posting and polling (Send), receiving (Receive),
--   the register dump (Dump), recovery and destruction (Destroy). Pd/Table is the abstract view of
--   the registers of all protection domains, a map from their numbers to grants. Lifecycle is the
--   life of a queue pair as a relation of steps, one for each kind of call.
-- - Examples: the programs. Dma is examples/dma_test, with the transfers of dma_utils.c; Systolic is
--   examples/systolic_mm; Rdma is examples/rdma_test and examples/network_systolic_mm. In Rdma, Setup
--   and Steps hold what the programs share, from the options to the queue pair and from the payload
--   to its check, and Write, Read, Batches, SendRecv and Network hold the client, the server and
--   `main` of each program; Handshake and ReadTransfer run a client on what a server has sent, and
--   BatchLaws the clients of the batch programs up to their last element.
-- - Machine: what these run on. Prelude and Bits: shared names, list lemmas, and masks and shifts
--   as arithmetic. Tests: the theorems at concrete inputs.
--
-- The library is imperative: it reads and writes structs through pointers, and registers. A function
-- is a `Cmd`, from a `Machine` to an `Outcome`. The machine has a map for each kind of struct, in
-- which a freed object is `none`, the trace of all register accesses with the words that were moved,
-- the history of the calls on the character device, and the bytes of host memory. A run returns,
-- exits, fails an `assert`, faults at a null or dangling pointer or past an array, or is still in a
-- loop when its fuel is used up. What a register holds is said of the trace: the word last written.
--
-- Code outside the repository is the record `Env` of Machine/Platform: the words that the card
-- answers, for any trace before the read, `malloc`, `mmap`, `mlock`, the page map, and the system
-- calls on the character device. What a theorem needs of it is a hypothesis: that `malloc` does not
-- fail, or `IsRegular` for a device that seeks, reads and writes as Linux documents it.
--
-- Integers are their bit patterns, with `%` where C wraps; `int` is compared by moving the sign bit,
-- and an index that passes the largest `int` wraps. Numbers and structs are laid out as on a 64-bit
-- little-endian host. Fields that `malloc` leaves unset are 0; nothing reads them before they are
-- set. Where C leaves the order of two register reads in one expression open, the left one is first.
-- The switch `debug`, which is 0 in the library, is off: with it the `Debug` macro prints, and in
-- `rdma_post_send` and `rdma_post_batch_send` also reads registers. Messages are not modelled.
--
-- Loops: those of `poll_cq_cidb` and of the heads in `rdma_qp_fatal_recovery` have a counter, which
-- ends them after 1,001 and 100,001 rounds; a transfer moves 0x7ffff000 bytes in each round but the
-- last, so that `size / 0x7ffff000 + 1` rounds are enough. These numbers are their fuel. The waits of
-- `wait_compute`, `poll_rq_pidb` and `rdma_post_batch_send`, and that for an empty queue, have no
-- bound in the code: their fuel is a parameter. The loops of the programs over words,
-- rows, elements and rounds are structural; the wait for a key takes the keys that are typed, and is
-- still going on when there are no more.
--
-- The programs meet the system in the record `Shell` of Examples/Rdma/Setup: the network interfaces,
-- the words that come over a socket, the keys that are typed. An option is what `getopt_long` gives,
-- its argument as `atoi` or `sscanf` reads it, and `arp` as the lines that it prints. The sends of
-- a server are what its model returns. The programs of examples/rdma_test are the same text up to
-- their queue pair, so that one model stands for all. Those of `systolic_mm.c` repeat the transfers
-- of dma_utils.c and the commands of lib/control_api.c, whose models they use.
--
-- Not modelled: `sscanf`, so that `convert_ip_addr_to_uint` and `convert_mac_addr_str_to_uint` start
-- from the numbers that it stores; the command lines of the benchmark and of the systolic program,
-- the option `-g`, which only prints and reads registers; times and what is computed of them in
-- floats; what the programs print, with the words of the error buffers that read_batch.c reads for
-- it; the calls that connect and close sockets; and the hardware in shell/, which is no C code but
-- for the kernels for high-level synthesis in shell/compute.
mod Prelude
pub mod Bits
pub mod Registers
pub mod Machine
pub mod Control
pub mod Reconic
pub mod Auxiliary
pub mod Memory
pub mod Rdma
pub mod Examples
pub mod Tests
