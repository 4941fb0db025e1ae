-- ===== src/Aser/Value/Visitor.antt =====
-- userland/aser/src/value/mod.rs: the methods of the visitor of Value that only build a value.
use aurora_os.Prelude.{ℕ, Bool, List}
use aurora_os.Aser.Result.{Result, ok}
use aurora_os.Aser.Data
use aurora_os.Aser.Value.{Value}

unfoldable pub visit_bool : Bool → Result Value
visit_bool v = ok (Value.bool v)

unfoldable pub visit_i8 : ℕ → Result Value
visit_i8 v = ok (Value.integer (Data.i8 v))

unfoldable pub visit_i16 : ℕ → Result Value
visit_i16 v = ok (Value.integer (Data.i16 v))

unfoldable pub visit_i32 : ℕ → Result Value
visit_i32 v = ok (Value.integer (Data.i32 v))

unfoldable pub visit_i64 : ℕ → Result Value
visit_i64 v = ok (Value.integer (Data.i64 v))

unfoldable pub visit_i128 : ℕ → Result Value
visit_i128 v = ok (Value.integer (Data.i128 v))

unfoldable pub visit_u8 : ℕ → Result Value
visit_u8 v = ok (Value.integer (Data.u8 v))

unfoldable pub visit_u16 : ℕ → Result Value
visit_u16 v = ok (Value.integer (Data.u16 v))

unfoldable pub visit_u32 : ℕ → Result Value
visit_u32 v = ok (Value.integer (Data.u32 v))

unfoldable pub visit_u64 : ℕ → Result Value
visit_u64 v = ok (Value.integer (Data.u64 v))

unfoldable pub visit_u128 : ℕ → Result Value
visit_u128 v = ok (Value.integer (Data.u128 v))

unfoldable pub visit_f32 : ℕ → Result Value
visit_f32 v = ok (Value.float (Data.f32 v))

unfoldable pub visit_f64 : ℕ → Result Value
visit_f64 v = ok (Value.float (Data.f64 v))

unfoldable pub visit_char : ℕ → Result Value
visit_char v = ok (Value.char v)

unfoldable pub visit_str : List ℕ → Result Value
visit_str v = ok (Value.string v)

unfoldable pub visit_bytes : List ℕ → Result Value
visit_bytes v = ok (Value.bytes v)

unfoldable pub visit_unit : Result Value
visit_unit = ok Value.null

-- After the reading of the value inside.
unfoldable pub visit_some : Result Value → Result Value
visit_some (ok value) = ok (Value.some_value value)
visit_some r = r

unfoldable pub visit_newtype_struct : Result Value → Result Value
visit_newtype_struct (ok value) = ok (Value.newtype value)
visit_newtype_struct r = r
