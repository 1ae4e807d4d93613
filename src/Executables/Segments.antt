-- ===== src/Executables/Segments.antt =====
-- What a PT_LOAD header adds to `map`.
use fcd.Base.{
  ℕ, ◌+◌, ◌-◌, ◌*◌, ◌%◌, ◌^◌, ◌≤◌, ◌<◌, ◌≡◌, refl, ap, ◌∙◌, Bool, true, false, ◌&&◌, ◌⊎◌, inl, inr,
  List, [], ◌∷◌, ◌++◌, some, ltb, leb, if◌then◌else◌, arith, Bool-cases,
}
use native.Mathlib.Nat.{mod-eq_of_lt}
use fcd.Executables.Memory.{Image, image_end, PtrRange, ptr_range}
use fcd.Executables.Ranges.{fits, range-fits}
use fcd.Executables.Layout.{Phdr}
use fcd.Executables.Elf.{Segment, Walk, segment_of, address_in, map_address, load_segment}

abbrev pub covers : Segment → ℕ → Bool
covers s a = leb s.vbegin a && ltb a s.vend

segment_of-append :
    (a : ℕ) (ss : List Segment) (s : Segment)
    → segment_of a (ss ++ s ∷ []) ≡ (if covers s a then some s else segment_of a ss)
segment_of-append a [] s = refl
segment_of-append a (t ∷ ss) s =
    let rest = segment_of-append a ss s in
    elim (Bool-cases (covers s a)) [ inl q ↦ rw rest (rw q refl) | inr q ↦ rw rest (rw q refl) ]

-- the header's bytes are in the file, and nothing wraps around
abbrev pub is_loaded : Image → Phdr → Bool
is_loaded i ph = ltb (ph.vaddr + ph.memsz) (2 ^ 64) && fits i 1 ph.offset ph.filesz

load_segment-segments :
    (i : Image) (ph : Phdr) (w : Walk)
    → 0 < i.begin
    → (load_segment i ph w).executable.segments ≡ (
        if is_loaded i ph
        then w.executable.segments
          ++ record { vbegin = ph.vaddr; vend = ph.vaddr + ph.memsz; fbegin = i.begin + ph.offset }
            ∷ []
        else w.executable.segments)
unfolding load_segment
load_segment-segments i ph w pos =
    let range = range-fits i 1 ph.offset ph.filesz in
    let file_loc : Bool → PtrRange = λ b.
      if b
      then ptr_range (i.begin + ph.offset) (i.begin + (ph.offset + ph.filesz * 1))
      else ptr_range 0 0 in
    elim (Bool-cases (fits i 1 ph.offset ph.filesz)) [
      | inl q ↦ rw (range ∙ ap file_loc q, load_segment) (rw q (ground arith))
      | inr q ↦ rw (range ∙ ap file_loc q, load_segment) (rw q (ground arith))
    ]

map_address-append :
    (s : Segment) (ss : List Segment) (a : ℕ)
    → map_address (ss ++ s ∷ []) a
      ≡ (if covers s a then (s.fbegin + (a - s.vbegin)) % 2 ^ 64 else map_address ss a)
unfolding map_address
map_address-append s ss a =
    ap (address_in a) (segment_of-append a ss s)
    ∙ elim (Bool-cases (covers s a)) [ inl q ↦ rw q refl | inr q ↦ rw q refl ]

-- A PT_LOAD header that has no more bytes in memory than in the file maps its addresses, if its
-- bytes are in the file and nothing wraps around, to its bytes, so to pointers into the file; all
-- other addresses are mapped as before, by the headers that came first. The file must stand at an
-- address that is not null, and end below 2^64.
pub map_address-load_segment :
    (i : Image) (ph : Phdr) (w : Walk) (a : ℕ)
    → 0 < i.begin
    → image_end i < 2 ^ 64
    → ph.memsz ≤ ph.filesz
    → (map_address (load_segment i ph w).executable.segments a ≡ (
        if is_loaded i ph && (leb ph.vaddr a && ltb a (ph.vaddr + ph.memsz))
        then i.begin + ph.offset + (a - ph.vaddr)
        else map_address w.executable.segments a))
      × ((is_loaded i ph && (leb ph.vaddr a && ltb a (ph.vaddr + ph.memsz)) ≡ false)
          ⊎ (i.begin + ph.offset + (a - ph.vaddr) < image_end i))
map_address-load_segment i ph w a pos small le =
    let seg : Segment = record {
      vbegin = ph.vaddr;
      vend = ph.vaddr + ph.memsz;
      fbegin = i.begin + ph.offset;
    } in
    let segments = load_segment-segments i ph w pos in
    let inside : is_loaded i ph && covers seg a ≡ true
        → i.begin + ph.offset + (a - ph.vaddr) < image_end i =
      λ q. ground arith in
    (
      rw (segments) (elim (Bool-cases (is_loaded i ph)) [
        | inr q ↦ rw q refl
        | inl q ↦ rw q (
            map_address-append seg w.executable.segments a ∙ elim (Bool-cases (covers seg a)) [
              | inl y ↦ rw y (mod-eq_of_lt (ground arith))
              | inr y ↦ rw y refl
            ])
      ]),
      elim (Bool-cases (is_loaded i ph && covers seg a)) [ inl q ↦ inr (inside q) | inr q ↦ inl q ],
    )
