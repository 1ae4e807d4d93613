-- ===== src/Types/Fields.antt =====
-- Field and parameter vectors: what `append` adds is found behind what was there.
use Prim.Native.String.{String}
use fcd.Base.{ℕ, zero, suc, ◌+◌, ◌≡◌, refl, some, arith, ◌==◌, if◌then◌else◌}
use fcd.Types.Defs.{ExpressionType, Fields, nil, field, append_fields, fields_size, get_field}

-- Appending a field makes the vector one longer; the new index holds the new field, and every
-- other index, also one out of range, reads as before.
pub get_field-append_fields :
    (fs : Fields) (t : ExpressionType) (name : String) (i : ℕ)
    → (fields_size (append_fields fs t name) ≡ fields_size fs + 1)
      × (get_field (append_fields fs t name) i ≡ (
          if i == fields_size fs then some (record { type = t; name = name }) else get_field fs i))
unfolding get_field append_fields fields_size
get_field-append_fields nil t name zero = (refl, refl)
get_field-append_fields nil t name (suc i) = ground arith
get_field-append_fields (field u n fs) t name zero =
    ground (arith, get_field-append_fields fs t name 0)
get_field-append_fields (field u n fs) t name (suc i) =
    ground (arith, get_field-append_fields fs t name i)
