-- ===== src/Shm.antt =====
-- lib/utils/shm/shmalloc.c: the allocator of the shared memory.
mod Defs
mod Bytes
mod Alloc
mod Free
mod Arena
mod Tests
