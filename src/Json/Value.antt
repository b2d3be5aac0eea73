-- ===== src/Json/Value.antt =====
-- `JsonValue`: src/json.h, and the accessors of src/json.cpp.
use goradio_samp.Base.{ℕ, zero, suc, Bool, true, false, Bytes, codes, equal, if◌then◌else◌}
use goradio_samp.Base.Int.{ℤ, pos}
use goradio_samp.Clib.{Platform, strtoll_10}

-- A value with the fields that its type uses; the others have no reader. `str_` of a number is its
-- text, and `num_` is `strtod` of that text.
mutual
  pub data JsonValue : Type 0 where
    null : JsonValue
    bool : Bool → JsonValue
    number : Bytes → JsonValue
    string : Bytes → JsonValue
    array : Elems → JsonValue
    object : Members → JsonValue

  pub data Elems : Type 0 where
    nil : Elems
    elem : JsonValue → Elems → Elems

  pub data Members : Type 0 where
    end : Members
    member : Bytes → JsonValue → Members → Members

abbrev pub is_null : JsonValue → Bool
is_null null = true
is_null (bool _) = false
is_null (number _) = false
is_null (string _) = false
is_null (array _) = false
is_null (object _) = false

abbrev pub is_object : JsonValue → Bool
is_object (object _) = true
is_object null = false
is_object (bool _) = false
is_object (number _) = false
is_object (string _) = false
is_object (array _) = false

abbrev pub true_text : Bytes
true_text = codes "true"

abbrev pub false_text : Bytes
false_text = codes "false"

unfoldable pub as_string : JsonValue → Bytes
as_string (string s) = s
as_string (number s) = s
as_string (bool b) = if b then true_text else false_text
as_string null = codes ""
as_string (array _) = codes ""
as_string (object _) = codes ""

unfoldable pub as_int : JsonValue → ℤ
as_int (string s) = strtoll_10 s
as_int (number s) = strtoll_10 s
as_int (bool b) = if b then pos 1 else pos 0
as_int null = pos 0
as_int (array _) = pos 0
as_int (object _) = pos 0

unfoldable pub as_bool : Platform → JsonValue → Bool
as_bool p (bool b) = b
as_bool p (number s) = p.strtod_nonzero s
as_bool p (string s) = equal s true_text
as_bool p null = false
as_bool p (array _) = false
as_bool p (object _) = false

unfoldable pub find_member : Bytes → Members → JsonValue
find_member key end = null
find_member key (member k v ms) = if equal k key then v else find_member key ms

unfoldable pub has_member : Bytes → Members → Bool
has_member key end = false
has_member key (member k v ms) = if equal k key then true else has_member key ms

-- `members_`, which is empty for what is no object.
abbrev pub members : JsonValue → Members
members (object ms) = ms
members null = end
members (bool _) = end
members (number _) = end
members (string _) = end
members (array _) = end

abbrev pub elems : JsonValue → Elems
elems (array es) = es
elems null = nil
elems (bool _) = nil
elems (number _) = nil
elems (string _) = nil
elems (object _) = nil

unfoldable pub get : JsonValue → Bytes → JsonValue
unfolding find_member
get v key = find_member key (members v)

unfoldable pub has : JsonValue → Bytes → Bool
unfolding has_member
has v key = has_member key (members v)

unfoldable pub get_str : JsonValue → Bytes → Bytes → Bytes
unfolding get as_string
get_str v key def = if is_null (get v key) then def else as_string (get v key)

unfoldable pub get_int : JsonValue → Bytes → ℤ → ℤ
unfolding get as_int
get_int v key def = if is_null (get v key) then def else as_int (get v key)

unfoldable pub get_bool : Platform → JsonValue → Bytes → Bool → Bool
unfolding get as_bool
get_bool p v key def = if is_null (get v key) then def else as_bool p (get v key)

unfoldable pub size_elems : Elems → ℕ
size_elems nil = 0
size_elems (elem v es) = suc (size_elems es)

unfoldable pub at_elems : Elems → ℕ → JsonValue
at_elems nil i = null
at_elems (elem v es) zero = v
at_elems (elem v es) (suc i) = at_elems es i

unfoldable pub size : JsonValue → ℕ
unfolding size_elems
size v = size_elems (elems v)

unfoldable pub at : JsonValue → ℕ → JsonValue
unfolding at_elems
at v i = at_elems (elems v) i
