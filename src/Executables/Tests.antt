-- ===== src/Executables/Tests.antt =====
-- An ELF file of one segment, a caching executable, and a repository of two of them.
use fcd.Base.{
  ℕ, ◌+◌, ◌-◌, ◌<◌, ◌≡◌, ◌⊎◌, refl, true, false, List, [], ◌∷◌, length, none, some, leb, ◌==◌,
  if◌then◌else◌, arith, All, ◌≢◌, ◌^◌,
}
use fcd.Executables.Maps.{update}
use fcd.Executables.Memory.{unfinished, ok, Image, image_end, bounded_range, elements, read_field}
use fcd.Executables.Ranges.{bounded_range-elements}
use fcd.Executables.Symbols.{
  SymbolInfo, StubTargetQueryResult, unresolved, resolved_in_flat_namespace, Executable, get_info,
  get_stub_target, get_visible_entry_points, get_target_triple,
}
use fcd.Executables.Caches.{IsCached, get_stub_target-IsCached}
use fcd.Executables.Layout.{elf32, elf64, Phdr, phdr_layout}
use fcd.Executables.Elf.{ElfExecutable, Walk, new_walk, load_segment, map_address, walk_header}
use fcd.Executables.Parse.{count_loop}
use fcd.Executables.Loops.{visit, count_loop-visit}
use fcd.Executables.Finish.{parse-finishes}
use fcd.Executables.Headers.{walk_header-Succeeds}
use fcd.Executables.Segments.{map_address-load_segment}
use fcd.Executables.Triple.{do_get_target_triple}
use fcd.Executables.Dashes.{get_target_triple-do_get_target_triple}
use fcd.Executables.Errors.{auto_parse-classify}
use fcd.Executables.Providers.{repository_info, repository_visible, contains}
use fcd.Executables.EntryPoints.{
  IsDistinct, some_shows, executable_provider, repository_info-stable,
  repository_visible-IsDistinct,
}
use fcd.Executables.Factory.{error, elf_corrupted, parse_file, parse, auto_parse}
use fcd.Executables.Unmapped.{HasMappedSymbols, parse-HasMappedSymbols}

-- An ELF32 file of a header and one program header, which maps the whole file to 4096
abbrev elf_bytes : List ℕ
elf_bytes =
    127 ∷ 69 ∷ 76 ∷ 70 ∷ 1 ∷ 1 ∷ 1 ∷ 0 ∷ 0 ∷ 0 ∷ 0 ∷ 0 ∷ 0 ∷ 0 ∷ 0 ∷ 0 ∷ 2 ∷ 0 ∷ 3 ∷ 0 ∷ 1 ∷ 0 ∷ 0
    ∷ 0 ∷ 16 ∷ 16 ∷ 0 ∷ 0 ∷ 52 ∷ 0 ∷ 0 ∷ 0 ∷ 0 ∷ 0 ∷ 0 ∷ 0 ∷ 0 ∷ 0 ∷ 0 ∷ 0 ∷ 52 ∷ 0 ∷ 32 ∷ 0 ∷ 1 ∷ 0
    ∷ 40 ∷ 0 ∷ 0 ∷ 0 ∷ 0 ∷ 0 ∷ 1 ∷ 0 ∷ 0 ∷ 0 ∷ 0 ∷ 0 ∷ 0 ∷ 0 ∷ 0 ∷ 16 ∷ 0 ∷ 0 ∷ 0 ∷ 0 ∷ 0 ∷ 0 ∷ 84
    ∷ 0 ∷ 0 ∷ 0 ∷ 84 ∷ 0 ∷ 0 ∷ 0 ∷ 5 ∷ 0 ∷ 0 ∷ 0 ∷ 4 ∷ 0 ∷ 0 ∷ 0 ∷ []

abbrev elf_file : Image
elf_file = record { begin = 65536; bytes = elf_bytes; host_is_big_endian = false }

abbrev parsed : ElfExecutable
parsed = record {
  segments = record { vbegin = 4096; vend = 4180; fbegin = 65536 } ∷ [];
  symbols = (4112, record { name = []; virtual_address = 4112 }) ∷ [];
  stub_targets = [];
}

parse-elf_file : parse (λ _. []) 8 elf32 elf_file ≡ ok parsed
unfolding parse parse_file update
parse-elf_file = refl

parse-HasMappedSymbols_example : HasMappedSymbols parsed
parse-HasMappedSymbols_example =
    parse-HasMappedSymbols (λ _. []) 8 elf32 elf_file parsed parse-elf_file

walk_header-Succeeds_example : (w : Walk) × (walk_header elf64 elf_file ≡ ok w)
walk_header-Succeeds_example = walk_header-Succeeds elf64 elf_file

-- The addresses of the program header of the file
bounded_range-elements_example :
    (length (elements 32 (bounded_range 32 65536 65620 52 1)) ≡ 1)
    × All
        (λ p. (v : ℕ) × (read_field elf_file (phdr_layout elf32) 2 p ≡ ok v))
        (elements 32 (bounded_range 32 65536 65620 52 1))
bounded_range-elements_example =
    bounded_range-elements elf_file (phdr_layout elf32) 52 1 2 (omega arith) (omega arith)

abbrev load_header : Phdr
load_header = record { type = 1; offset = 0; vaddr = 4096; filesz = 84; memsz = 84 }

map_address-load_segment_example :
    (map_address (load_segment elf_file load_header new_walk).executable.segments 4112 ≡ 65552)
    × ((true ≡ false) ⊎ (65552 < image_end elf_file))
map_address-load_segment_example =
    map_address-load_segment elf_file load_header new_walk 4112 (omega arith) (omega arith)
      (omega arith)

-- the offsets of a table of 60 bytes with entries of 24 bytes, collected
count_loop-visit_example :
    count_loop (λ p ps. ok (p ∷ ps)) 60 24 5 0 []
    ≡ visit (λ p ps. ok (p ∷ ps)) (0 ∷ 24 ∷ 48 ∷ []) []
count_loop-visit_example =
    count_loop-visit (λ p ps. ok (p ∷ ps)) 60 24 5 [] (omega arith) (omega arith) (omega arith)

get_target_triple-do_get_target_triple_example :
    get_target_triple "x86_64-unknown-linux" ≡ some "x86_64-unknown-linux"
unfolding do_get_target_triple
get_target_triple-do_get_target_triple_example =
    get_target_triple-do_get_target_triple elf64 1 0 62 "x86_64-unknown-linux" refl

-- a file that ends after its magic bytes and its class
auto_parse-classify_example :
    auto_parse
      (λ _. [])
      8
      (record { begin = 65536; bytes = 127 ∷ 69 ∷ 76 ∷ 70 ∷ 1 ∷ []; host_is_big_endian = false })
    ≡ ok (error elf_corrupted)
auto_parse-classify_example =
    auto_parse-classify (λ _. []) 8 65536 false (127 ∷ 69 ∷ 76 ∷ 70 ∷ 1 ∷ []) (omega arith)

abbrev puts : List ℕ
puts = 112 ∷ 117 ∷ 116 ∷ 115 ∷ []

abbrev stubs : ℕ → StubTargetQueryResult
stubs a = if a == 4160 then resolved_in_flat_namespace puts else unresolved

abbrev symbol : ℕ → SymbolInfo
symbol a = record { name = []; virtual_address = a }

abbrev first_executable : Executable
first_executable = record {
  symbols = (4112, symbol 4112) ∷ (4100, symbol 4100) ∷ [];
  stub_targets = [];
  libraries = [];
}

abbrev second_executable : Executable
second_executable = record { symbols = (4112, symbol 4112) ∷ []; stub_targets = []; libraries = [] }

get_stub_target-IsCached_example :
    ((get_stub_target stubs 4160 first_executable).0
      ≡ some (record { shared_object = none; name = puts }))
    × IsCached stubs (get_stub_target stubs 4160 first_executable).1
get_stub_target-IsCached_example =
    get_stub_target-IsCached stubs 4160 first_executable (λ a s found. absurd (ground arith))

abbrev flat : ℕ → ℕ
flat a = if leb 4096 a then 65536 + (a - 4096) else 0

repository_info-stable_example :
    ((repository_info (get_info flat) 4112 (first_executable ∷ second_executable ∷ [])).0
      ≡ some (symbol 4112))
    × ((repository_info
          (get_info flat)
          4112
          (repository_info (get_info flat) 4200 (first_executable ∷ second_executable ∷ [])).1).0
        ≡ some (symbol 4112))
unfolding get_info
repository_info-stable_example =
    repository_info-stable (executable_provider flat) 4200 4112
      (first_executable ∷ second_executable ∷ [])

repository_visible-IsDistinct_example :
    IsDistinct
      (repository_visible get_visible_entry_points (first_executable ∷ second_executable ∷ []) [])
    × ((a : ℕ)
        → contains a (
            repository_visible get_visible_entry_points
              (first_executable ∷ second_executable ∷ [])
              [])
          ≡ some_shows get_visible_entry_points a (first_executable ∷ second_executable ∷ []))
repository_visible-IsDistinct_example =
    repository_visible-IsDistinct get_visible_entry_points
      (first_executable ∷ second_executable ∷ [])

parse-finishes_example : parse (λ _. []) (2 ^ 33) elf32 elf_file ≢ unfinished
parse-finishes_example = parse-finishes (λ _. []) (2 ^ 33) elf_file refl (omega arith)
