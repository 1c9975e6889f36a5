-- ===== src/Types/Fixed.antt =====
-- The ids that `TypeArena::new` gives to the primitives (arena.rs, `number()` to `void()`).
use ts_rust.Types.{TypeId}

abbrev pub number : TypeId
number = 0

abbrev pub string : TypeId
string = 1

abbrev pub boolean : TypeId
boolean = 2

abbrev pub null : TypeId
null = 3

abbrev pub undefined : TypeId
undefined = 4

abbrev pub any : TypeId
any = 5

abbrev pub unknown : TypeId
unknown = 6

abbrev pub error : TypeId
error = 7

abbrev pub never : TypeId
never = 8

abbrev pub void : TypeId
void = 9
