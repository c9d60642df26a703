-- ===== src/Lib.antt =====
-- The kernel of jamesOS, a teaching operating system for 32-bit x86 in C.
--
-- The parts that are modelled, each in the file named after its source:
--   Libc/Bitmap       src/libc/bitmap.c: a bit in an array of bytes, filling a bitmap, and finding a
--                     sequence of equal bits. The positions go round at the end of the bitmap.
--   Libc/Kheap        src/libc/kheap.c: the kernel heap. The state is the bitset with one bit for
--                     each byte of the heap; `kmalloc_any` is `_kmalloc`, with its two loops as
--                     `heap_loop` and `byte_loop`.
--   Libc/Mem          src/libc/mem.c: memcpy, memset, memmov and memcmp on one memory.
--   Libc/Minmax       src/libc/minmax.c.
--   Libc/Text         src/libc/string.c: itoa, reverse, strlen.
--   Libc/Paging       src/libc/paging.c: the bitmap of frames, page tables in the memory at their
--                     addresses, and physical addresses.
--   Multitask         src/multitask/multitask.c, with src/drivers/pit.c (the timer) and
--                     src/kernel_tasks/task_terminator.c. The chain of tasks from `head` on is a
--                     list, a pointer to a task is its pid, and the globals are one record. A call
--                     that switches tasks is modelled with the `unlock_irq` that the task which
--                     gets the processor runs next. Steps is the system of all calls.
--   Network/Utils     src/network/network_utils.c: byte order, fields of bits and bytes, the internet
--                     checksum, the pseudo header. Batch and Blocks are about headers that are
--                     filled in field by field and about copies between blocks.
--   Network/Ipv4      src/network/ip.c: building a packet, arrays, sending and receipt.
--   Network/Tcp       src/network/tcp.c: building a segment, flags, and the binding of ports.
--                     Connection has the state of a port, the replies, the receiving of a segment, the
--                     window of received bytes and `tcp_read`.
--   Network/Udp       src/network/udp.c: the table of ports.
--   Network/Udp/Segment
--                     src/network/udp.c: building a segment, sending and receipt.
--   Network/Icmp      src/network/icmp.c: building a message, sending, and the echo.
--   Network/Layers    src/network/l2_interface.c and l3_interface.c for Ethernet and IPv4.
--   Network/Ethernet  src/network/ethernet.c: building a frame, arrays, and the choice by type.
--   Network/Arp       src/network/arp.c: packets, the table of addresses, requests and replies.
--   KernelTasks/NetworkHandler
--                     src/kernel_tasks/network_handler_task.c: the two rings of frames, which wake
--                     and block the handlers through Multitask.
--   Drivers/Vga       src/drivers/vga.c: the text screen, with the video memory, the cursor and the colour
--                     as its state, and `kprintf`.
--   Drivers/Keyboard  src/drivers/keyboard.c: the text for each scan code.
--   Drivers/Pci       src/drivers/pci.c: the addresses of the bus, and the search for a device.
--   Drivers/Rtl8139   src/drivers/rtl8139.c: a frame that is sent, and a round of the receiving loop.
--   Cpu/Isr           src/cpu/isr.c and src/cpu/idt.c: the gates, the handlers, and what goes to the
--                     interrupt controllers.
-- Prelude has the shared lists, machine words, bits and rings.
--
-- How they interact: the network layers take their memory from the heap and build headers with the
-- network helpers; the rings and the timer change the scheduler's state. A block that the heap hands
-- out is an argument of the functions that fill it, of the size asked for and with any contents, which
-- stands for every block that the heap may hand out.
--
-- Numbers are natural numbers, and each assignment to a variable of 8, 16 or 32 bits is cut to its
-- width by u8, u16 and u32. Arrays are lists of bytes. A read out of an array gives 0 and a write
-- changes nothing; that accesses are in range is a hypothesis where it matters.
--
-- Loops that count are recursion on the rounds left. Four loops take fuel: the folding of carries in
-- the checksum, with 3 rounds, since no carry is left after two, and the search of the scheduler,
-- with one round for each task from the current one on and once round the chain, the loop over
-- received bytes, with 1025 rounds, since 1024 bytes are in a window, and the recursion of
-- `print_letter`, with 2 calls, since a released key is looked up once as a pushed one. `none` is the
-- result without enough fuel. The digits of a number take 10 rounds, since it has 32 bits.
--
-- The machine halts where the source stops the processor; the result is `none` there.
--
-- Not modelled: the hardware behind the ports, the serial line, the boot code and the interrupt entry
-- in assembly, and, so far, the sender task of TCP, the start of the network card and the choice of the
-- layers between other protocols than Ethernet and IPv4. The stacks that the dispatcher exchanges and
-- the messages of the other parts have no part in the models. The way of a segment between two sides
-- of a connection, through IP and Ethernet, is not part of the handshake's model.
pub mod Prelude
pub mod Libc
pub mod Multitask
pub mod Network
pub mod KernelTasks
pub mod Drivers
pub mod Cpu
