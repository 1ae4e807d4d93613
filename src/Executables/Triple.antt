-- ===== src/Executables/Triple.antt =====
-- `doGetTargetTriple` of fcd/executables/elf_executable.cpp and flat_binary.cpp. A failed assertion
-- is `none`.
use Prim.Native.String.{String, ◌++◌}
use fcd.Base.{ℕ, Bool, true, false, not, ◌&&◌, Option, none, some, ◌==◌, if◌then◌else◌}
use fcd.Executables.Layout.{ElfTypes, elf32, elf64}

abbrev pub is_64_bits : ElfTypes → Bool
is_64_bits elf32 = false
is_64_bits elf64 = true

-- the machines that have a name of their own
pub data ElfMachine : Type 0 where
  em_sparc em_386 em_mips em_ppc em_ppc64 em_arm em_sparcv9 em_x86_64 em_avr em_msp430 em_hexagon
        em_aarch64 em_xcore em_csr_kalimba other_machine :
      ElfMachine

abbrev pub machine_of : ℕ → ElfMachine
machine_of n =
    if n == 2
    then em_sparc
    else if n == 3
    then em_386
    else if n == 8
    then em_mips
    else if n == 20
    then em_ppc
    else if n == 21
    then em_ppc64
    else if n == 40
    then em_arm
    else if n == 43
    then em_sparcv9
    else if n == 62
    then em_x86_64
    else if n == 83
    then em_avr
    else if n == 105
    then em_msp430
    else if n == 164
    then em_hexagon
    else if n == 183
    then em_aarch64
    else if n == 203
    then em_xcore
    else if n == 219
    then em_csr_kalimba
    else other_machine

unfoldable pub arch_name : (is_64_bits is_big_endian : Bool) → ElfMachine → Option String
arch_name wide big em_aarch64 = some ("aarch64" ++ (if big then "_be" else ""))
arch_name wide big em_avr = some "avr"
arch_name wide big em_arm = some ("arm" ++ (if big then "eb" else ""))
arch_name wide big em_hexagon = some "hexagon"
arch_name wide big em_csr_kalimba = some "kalimba"
arch_name wide big em_mips =
    some ("mips" ++ (if wide then "64" else "") ++ (if big then "" else "el"))
arch_name wide big em_msp430 = some "msp430"
arch_name wide big em_ppc = if not wide && big then some "ppc" else none
arch_name wide big em_ppc64 = if wide then some ("ppc64" ++ (if big then "" else "le")) else none
arch_name wide big em_sparc = some ("sparc" ++ (if big then "" else "el"))
arch_name wide big em_sparcv9 = some "sparcv9"
arch_name wide big em_386 = some ("x86" ++ (if wide then "_64" else ""))
arch_name wide big em_x86_64 = if wide then some "x86_64" else none
arch_name wide big em_xcore = some "xcore"
arch_name wide big other_machine = some "unknown"

unfoldable pub os_name : ℕ → String
os_name abi =
    if abi == 0
    then "linux"
    else if abi == 3
    then "linux"
    else if abi == 9
    then "freebsd"
    else if abi == 2
    then "netbsd"
    else if abi == 12
    then "openbsd"
    else if abi == 6
    then "solaris"
    else if abi == 7
    then "aix"
    else "unknown"

abbrev pub triple_of : Option String → String → Option String
triple_of none os = none
triple_of (some arch) os = some (arch ++ "-unknown-" ++ os)

-- from the header's `ident[EI_DATA]`, `ident[EI_OSABI]` and `machine`
unfoldable pub do_get_target_triple : ElfTypes → (data_byte os_abi machine : ℕ) → Option String
unfolding arch_name os_name
do_get_target_triple c data_byte os_abi machine =
    triple_of (arch_name (is_64_bits c) (data_byte == 2) (machine_of machine)) (os_name os_abi)

abbrev pub flat_target_triple : String
flat_target_triple = "x86_64-unknown-"
