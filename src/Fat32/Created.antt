-- ===== src/Fat32/Created.antt =====
-- A record that is put where `FindSpaceInDir` of kernel/base.c found space is found by `ReadRecord`.
