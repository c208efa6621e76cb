-- ===== src/Schedutils/Stride.antt =====
-- A stride of 0 in a list of CPUs (`cstr_to_cpuset` of lua/lua-schedutils/cpuset-str.c).
