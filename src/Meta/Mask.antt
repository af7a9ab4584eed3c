-- ===== src/Meta/Mask.antt =====
-- src/meta.rs, `mod mask`, `DAY`, `MIN` and `mod access`: the bits that name a field of `Meta`, the
-- units of the time predicates, and the bits that name a kind of access.
use minifind.Base.{ℕ, ◌^◌}

abbrev pub size : ℕ
size = 2 ^ 0

abbrev pub mtime : ℕ
mtime = 2 ^ 1

abbrev pub ctime : ℕ
ctime = 2 ^ 2

abbrev pub atime : ℕ
atime = 2 ^ 3

abbrev pub mode : ℕ
mode = 2 ^ 4

abbrev pub uid : ℕ
uid = 2 ^ 5

abbrev pub gid : ℕ
gid = 2 ^ 6

abbrev pub nlink : ℕ
nlink = 2 ^ 7

abbrev pub ino : ℕ
ino = 2 ^ 8

abbrev pub day : ℕ
day = 86400

abbrev pub minute : ℕ
minute = 60

abbrev pub read : ℕ
read = 2 ^ 0

abbrev pub write : ℕ
write = 2 ^ 1

abbrev pub exec : ℕ
exec = 2 ^ 2
