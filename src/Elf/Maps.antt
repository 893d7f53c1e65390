-- ===== src/Elf/Maps.antt =====
-- loader/src/utils/elf_util.cpp and elf_util.h: the entries of /proc/self/maps and the load address of
-- a library. Reading the file is outside the model: a function that needs the mappings takes them.
pub mod Base
use zygisk_next_next.Base.{
  ℕ, zero, suc, ◌+◌, ◌-◌, ◌%◌, ◌^◌, Bool, true, false, not, ◌||◌, ◌&&◌, List, [], ◌∷◌, Bytes, same,
  ltb, leb, ◌==◌, if◌then◌else◌, Option, none, some,
}

-- `MapEntry`
pub record MapEntry : Type 0 where
  pub start : ℕ
  pub end : ℕ
  pub offset : ℕ
  pub dev : ℕ
  pub inode : ℕ
  pub perms : ℕ
  pub is_private : Bool
  pub path : Bytes

-- What `sscanf` stores for a line of which it reads seven fields or eight.
pub record Scanned : Type 0 where
  pub start : ℕ
  pub end : ℕ
  pub perm0 : ℕ
  pub perm1 : ℕ
  pub perm2 : ℕ
  pub perm3 : ℕ
  pub offset : ℕ
  pub dev_major : ℕ
  pub dev_minor : ℕ
  pub inode : ℕ
  pub path : Bytes

-- PROT_READ, PROT_WRITE, PROT_EXEC
abbrev pub prot_bits : Bool → Bool → Bool → ℕ
prot_bits r w x = (if r then 1 else 0) + ((if w then 2 else 0) + (if x then 4 else 0))

-- The body of the loop of `parseMapsPath` behind `sscanf`; `makedev` is the C library's.
unfoldable pub entry_of : (ℕ → ℕ → ℕ) → Scanned → MapEntry
entry_of makedev l = record {
  start = l.start;
  end = l.end;
  offset = l.offset;
  dev = makedev l.dev_major l.dev_minor;
  inode = l.inode;
  perms = prot_bits (l.perm0 == b'r') (l.perm1 == b'w') (l.perm2 == b'x');
  is_private = l.perm3 == b'p';
  path = l.path;
}

-- `parseMapsPath` over the lines of the file, each as `sscanf` reads it; none is a line of fewer than
-- seven fields, which is skipped.
unfoldable pub parse_maps : (ℕ → ℕ → ℕ) → List (Option Scanned) → List MapEntry
parse_maps makedev [] = []
parse_maps makedev (none ∷ lines) = parse_maps makedev lines
parse_maps makedev (some l ∷ lines) = entry_of makedev l ∷ parse_maps makedev lines

-- `strchr(name, '/') != nullptr`
unfoldable pub has_slash : Bytes → Bool
has_slash [] = false
has_slash (c ∷ s) = c == b'/' || has_slash s

-- `strrchr(path, '/')`, then what is behind it, or the whole path.
unfoldable pub file_name : Bytes → Bytes
file_name [] = []
file_name (c ∷ s) = if has_slash (c ∷ s) then file_name s else c ∷ s

-- `m.path.empty() || m.path[0] == '['`
abbrev pub is_anonymous : Bytes → Bool
is_anonymous [] = true
is_anonymous (c ∷ s) = c == b'['

-- `mapMatchesName`
unfoldable pub map_matches_name : MapEntry → Bytes → Bool
map_matches_name m name =
    if is_anonymous m.path
    then false
    else if has_slash name
    then same m.path name
    else same (file_name m.path) name

-- `resolveMapPath`, no bytes where nothing matches.
unfoldable pub resolve_map_path : List MapEntry → Bytes → Bytes
resolve_map_path [] name = []
resolve_map_path (m ∷ maps) name =
    if map_matches_name m name then m.path else resolve_map_path maps name

-- The first loop of `findLibraryBaseInMaps`.
unfoldable pub count_matches : List MapEntry → Bytes → ℕ
count_matches [] name = 0
count_matches (m ∷ maps) name = (if map_matches_name m name then 1 else 0) + count_matches maps name

-- A mapping about as long as the file, among several, is a reader's copy of the file.
unfoldable pub is_file_copy : ℕ → ℕ → MapEntry → Bool
is_file_copy matches whole_size m =
    let span = (m.end + 2 ^ 64 - m.start) % 2 ^ 64 in
    (ltb 1 matches && not (whole_size == 0))
    && (leb whole_size span && ltb (span - whole_size) 4096)

-- The second loop of `findLibraryBaseInMaps`.
unfoldable pub base_loop : ℕ → List MapEntry → Bytes → ℕ → ℕ
base_loop matches [] name whole_size = 0
base_loop matches (m ∷ maps) name whole_size =
    let rest = base_loop matches maps name whole_size in
    if not (map_matches_name m name)
    then rest
    else if is_file_copy matches whole_size m
    then rest
    else if leb m.offset m.start
    then m.start - m.offset
    else rest

-- `findLibraryBaseInMaps`
unfoldable pub find_library_base_in_maps : List MapEntry → Bytes → ℕ → ℕ
find_library_base_in_maps maps name whole_size =
    base_loop (count_matches maps name) maps name whole_size
